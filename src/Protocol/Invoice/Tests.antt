-- ===== src/Protocol/Invoice/Tests.antt =====
-- uma/protocol/invoice.go at a concrete invoice, and with a concrete encoder for the bech32 library.
use uma_go_sdk.Base.{
  ◌≡◌, refl, true, none, some, [], ◌∷◌, ◌++◌, Bytes, codes, arith, eqb, le_bytes, length, take,
  drop, ap,
}
use uma_go_sdk.Base.Int.{pos}
use uma_go_sdk.Go.Result.{Result, ok, err, library_error, ◌>>=◌}
use uma_go_sdk.Go.Map.{insert, lookup}
use uma_go_sdk.Protocol.CounterParty.Sorted.{sort_entries}
use uma_go_sdk.Go.Strconv.{parse_int, parse_uint, format_uint}
use uma_go_sdk.Go.Strings.{split, join}
use uma_go_sdk.Go.Sort.{sort_strings}
use uma_go_sdk.Protocol.KycStatus
use uma_go_sdk.Protocol.CounterParty.{marshal_bytes, unmarshal_bytes}
use uma_go_sdk.Utils.Tlv.{handle, marshal_tlv, entry, nil_if_empty, tag_byte}
use uma_go_sdk.Protocol.Invoice.{
  UmaInvoice, currency_fields, marshal_invoice, Bech32, IsBech32, to_bech32_string,
  from_bech32_string,
}
use uma_go_sdk.Protocol.Invoice.Writable.{IsWritable}
use uma_go_sdk.Protocol.Invoice.RoundTrip.{unmarshal-marshal_invoice, from-to_bech32_string}

abbrev invoice : UmaInvoice
invoice = record {
  receiver_uma = codes "$a@b.c";
  invoice_uuid = codes "c7c07fec";
  amount = 1000;
  receiving_currency = record {
    code = codes "USD";
    name = codes "US Dollar";
    symbol = codes "$";
    decimals = 2;
  };
  expiration = 7;
  is_subject_to_travel_rule = true;
  required_payer_data = some (
      (codes "email", record { mandatory = true })
      ∷ (codes "name", record { mandatory = true })
      ∷ []);
  uma_versions = codes "1.0";
  comment_chars_allowed = some (pos 50);
  sender_uma = none;
  max_num_payments = some 2;
  kyc_status = some KycStatus.verified;
  callback = codes "/cb";
  signature = some (some (48 ∷ 1 ∷ []));
}

invoice-IsWritable : IsWritable invoice
unfolding handle marshal_tlv entry nil_if_empty tag_byte parse_int parse_uint currency_fields
    format_uint sort_entries lookup marshal_bytes unmarshal_bytes split join sort_strings insert eqb
    le_bytes
invoice-IsWritable = record {
  receiver_uma = omega arith;
  invoice_uuid = omega arith;
  amount = omega arith;
  receiving_currency = omega arith;
  currency_code = omega arith;
  currency_name = omega arith;
  currency_symbol = omega arith;
  decimals = omega arith;
  expiration = omega arith;
  required_payer_data =
      ((λ e. cc, unfold lookup eqb in (refl, (refl, tt)), omega arith), refl, omega arith);
  uma_versions = omega arith;
  comment_chars_allowed = omega arith;
  sender_uma = tt;
  max_num_payments = omega arith;
  kyc_status = refl;
  callback = omega arith;
  signature = (48 ∷ 1 ∷ [], refl, omega arith);
}

abbrev plain_decode : Bytes → Result (Bytes × Bytes)
plain_decode [] = err library_error
plain_decode (n ∷ s) = ok (take n s, drop n s)

-- An encoder that puts the human readable part behind its length.
abbrev plain : Bech32
plain = record {
  convert_bits = λ s from to pad. ok s;
  encode = λ hrp groups. ok (length hrp ∷ (hrp ++ groups));
  decode_no_limit = plain_decode;
}

plain_decoded :
    (groups text : Bytes)
    → plain.encode (codes "uma") groups ≡ ok text
    → plain.decode_no_limit text ≡ ok (codes "uma", groups)
plain_decoded groups text e = let p : 3 ∷ (codes "uma" ++ groups) ≡ text = cc in rw (← p) refl

-- What the invoice is written as.
abbrev tlv : Bytes
tlv = (unmarshal-marshal_invoice invoice invoice-IsWritable).0

written : marshal_invoice invoice ≡ ok tlv
written = (unmarshal-marshal_invoice invoice invoice-IsWritable).1

plain-IsBech32 : IsBech32 plain
plain-IsBech32 = record {
  decode-encode = λ groups text e. plain_decoded groups text e;
  convert_back = λ s groups e. cc;
}

from-to_bech32_string_example : from_bech32_string plain (3 ∷ (codes "uma" ++ tlv)) ≡ ok invoice
from-to_bech32_string_example =
    from-to_bech32_string plain invoice (3 ∷ (codes "uma" ++ tlv)) plain-IsBech32 invoice-IsWritable
      (unfold to_bech32_string in ap (λ r. r >>= λ t. ok (3 ∷ (codes "uma" ++ t))) written)
