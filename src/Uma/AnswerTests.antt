-- ===== src/Uma/AnswerTests.antt =====
-- Answers, invoices and replays of uma/uma.go at concrete inputs.
use uma_go_sdk.Base.{arith, true, ◌≡◌, refl, none, some, [], ◌∷◌, ◌++◌, codes}
use uma_go_sdk.Base.Int.{pos}
use uma_go_sdk.Go.Result.{ok, panic, ◌>>=◌}
use uma_go_sdk.Go.Strconv.{format_uint, format_int, parse_int, parse_uint}
use uma_go_sdk.NonceCache.{in_memory}
use uma_go_sdk.Version.{uma_protocol_version, version_string}
use uma_go_sdk.Protocol.LnurlpRequest.{LnurlpRequest}
use uma_go_sdk.Uma.Toy.{
  toy, toy-IsKeyPair, toy-IsSigner, key, random_bytes, vasp, vasp-key, now, cache, user, domain,
  unseen, young,
}
use uma_go_sdk.Version.Parse.{older_version_chosen}
use uma_go_sdk.Protocol.Currency.{Currency}
use uma_go_sdk.Protocol.KycStatus.{KycStatus, verified}
use uma_go_sdk.Protocol.Invoice.{UmaInvoice, marshal_invoice, invoice_fields, currency_fields}
use uma_go_sdk.Utils.Tlv.{handle, marshal_tlv, entry, nil_if_empty, tag_byte}
use uma_go_sdk.Utils.Tlv.Coders
use uma_go_sdk.Protocol.KycStatus
use uma_go_sdk.Uma.Signing.{sign_payload_to_bytes}
use uma_go_sdk.Protocol.LnurlpRequest.{is_uma_request}
use uma_go_sdk.Protocol.LnurlpResponse.{LnurlpResponse, UmaLnurlpResponse, as_uma_response}
use uma_go_sdk.Uma.Verify.{verify_uma_lnurlp_response_signature}
use uma_go_sdk.Uma.LnurlpAnswer.{AnswerTerms, get_lnurlp_response, set_currency_versions}
use uma_go_sdk.Uma.LnurlpAnswer.Verified.{IsMandatory, missing_key_panics, set_currency_versions_id}
use uma_go_sdk.Uma.LnurlpAnswer.Verified.Received.{answer_received}
use uma_go_sdk.Protocol.LnurlpResponse.Json.{marshal_lnurlp_response, unmarshal_lnurlp_response}
use uma_go_sdk.Protocol.LnurlpResponse.Json.RoundTrip.{CurrencyIsKept}
use uma_go_sdk.Uma.ToyJson.{toy_float, toy-IsFloat64}
use uma_go_sdk.Uma.SigningLaws.{verify-create_invoice}
use uma_go_sdk.Uma.InvoiceSigning.{
  InvoiceTerms, unsigned_invoice, create_uma_invoice, verify_uma_invoice_signature,
}

abbrev request : LnurlpRequest
request = record {
  receiver_address = user ++ b'@' ∷ domain;
  nonce = some (codes "9");
  signature = some (codes "00");
  is_subject_to_travel_rule = some true;
  vasp_domain = some (codes "vasp1.com");
  timestamp = some now;
  uma_version = some (codes "0.3");
}

request_is_uma : is_uma_request request ≡ true
unfolding is_uma_request
request_is_uma = refl

abbrev pub dollar : Currency
dollar = record {
  code = codes "USD";
  name = codes "US Dollar";
  symbol = codes "$";
  millisatoshi_per_unit = 0;
  convertible = record { min_sendable = pos 1; max_sendable = pos 9 };
  decimals = pos 2;
  uma_major_version = pos 1;
}

pub dollar-kept : CurrencyIsKept toy_float dollar
dollar-kept = (
  _,
  refl,
  record {
    min = ((omega arith, omega arith), (omega arith, omega arith));
    max = ((omega arith, omega arith), (omega arith, omega arith));
    decimals = ((omega arith, omega arith), (omega arith, omega arith));
  },
)

abbrev pub terms : AnswerTerms
terms = record {
  callback = codes "/cb";
  encoded_metadata = codes "[]";
  min_sendable_sats = pos 1;
  max_sendable_sats = pos 1000;
  private_key_bytes = some key;
  requires_travel_rule_info = some true;
  payer_data_options = none;
  currency_options = some (dollar ∷ []);
  receiver_kyc_status = some verified;
  comment_chars_allowed = none;
  nostr_pubkey = none;
}

answer_received_example :
    (r : LnurlpResponse) × (q : LnurlpResponse) × (u : UmaLnurlpResponse) × (get_lnurlp_response toy
        (ok 2301)
        random_bytes
        now
        request
        terms
      ≡ ok r)
    × ((marshal_lnurlp_response toy_float r >>= unmarshal_lnurlp_response toy_float) ≡ ok q)
    × (as_uma_response q ≡ ok (some u))
    × (u.uma_version ≡ codes "0.3")
    × (u.compliance.nonce ≡ format_uint 2301)
    × IsMandatory (codes "compliance") u.required_payer_data
    × IsMandatory (codes "identifier") u.required_payer_data
    × ((verify_uma_lnurlp_response_signature toy u vasp cache).0 ≡ ok tt)
answer_received_example =
    answer_received toy key key (toy-IsKeyPair key) vasp vasp-key 2301 random_bytes now request
      terms toy_float toy-IsFloat64 cache (codes "0.3") (codes "0.3") true verified (dollar ∷ [])
      request_is_uma refl older_version_chosen refl refl refl refl (λ e. cc) (dollar-kept, tt) tt
      refl (toy-IsSigner random_bytes key) unseen young

missing_key_panics_example :
    get_lnurlp_response toy
      (ok 2301)
      random_bytes
      now
      request
      (record terms { private_key_bytes = none })
    ≡ panic
missing_key_panics_example =
    missing_key_panics toy (ok 2301) random_bytes now request
      (record terms { private_key_bytes = none }) (codes "0.3") (codes "0.3") request_is_uma refl
      older_version_chosen refl

abbrev invoice_terms : InvoiceTerms
invoice_terms = record {
  receiver_uma = user;
  amount = 100;
  receiving_currency = record {
    code = codes "USD";
    name = codes "US Dollar";
    symbol = codes "$";
    decimals = 2;
  };
  expiration = 1700000000;
  callback = codes "/cb";
  is_subject_to_travel_rule = true;
  required_payer_data = none;
  comment_chars_allowed = none;
  receiver_kyc_status = some verified;
  invoice_limit = none;
  sender_uma = none;
}

abbrev invoice : UmaInvoice
invoice = record (unsigned_invoice (codes "uuid") invoice_terms) {
  signature = some (some (194 ∷ []));
}

invoice_created : create_uma_invoice toy (codes "uuid") random_bytes invoice_terms key ≡ ok invoice
unfolding create_uma_invoice sign_payload_to_bytes unsigned_invoice marshal_invoice marshal_tlv
    invoice_fields tag_byte parse_int parse_uint currency_fields entry format_uint nil_if_empty
    handle uma_protocol_version version_string format_int Coders.encode KycStatus.marshal_bytes
    KycStatus.string_value
invoice_created = refl

verify-create_invoice_example : verify_uma_invoice_signature toy invoice vasp ≡ ok tt
verify-create_invoice_example =
    verify-create_invoice toy key key (toy-IsKeyPair key) vasp vasp-key (codes "uuid") random_bytes
      invoice_terms invoice invoice_created

set_currency_versions_id_example :
    set_currency_versions (some (codes "0.3")) (some (dollar ∷ [])) ≡ ok (some (dollar ∷ []))
set_currency_versions_id_example =
    set_currency_versions_id (some (codes "0.3")) (some (dollar ∷ []))
