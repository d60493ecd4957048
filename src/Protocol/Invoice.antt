-- ===== src/Protocol/Invoice.antt =====
-- uma/protocol/invoice.go. `reflect` sees an invoice as the fields of `invoice_fields`: the kind of
-- each field, and its `tlv` tag. The bech32 library is a parameter of the two text conversions.
pub mod FieldLaws
pub mod Writable
pub mod RoundTrip
mod Tests
use uma_go_sdk.Base.{
  ℕ, zero, suc, Bool, true, false, Option, none, some, [], ◌∷◌, ◌++◌, ◌≡◌, refl, Bytes, codes, eqb,
  if◌then◌else◌,
}
use uma_go_sdk.Base.Int.{ℤ, pos}
use uma_go_sdk.Go.Result.{
  Result, ok, err, panic, ◌>>=◌, ◌>>◌, guard, or_error, signature_required,
  invalid_human_readable_part,
}
use uma_go_sdk.Protocol.KycStatus.{KycStatus}
use uma_go_sdk.Protocol.KycStatus
use uma_go_sdk.Protocol.CounterParty.{CounterPartyDataOptions}
use uma_go_sdk.Utils.Tlv.{
  Value, Fields, string_value, int_value, uint_value, bool_value, slice_value, nil_pointer, pointer,
  tlv_codable, bytes_codable, end, field, marshal_tlv, unmarshal_tlv,
}
use uma_go_sdk.Utils.Tlv.Coders.{Codable, kyc_status, data_options}

pub record InvoiceCurrency : Type 0 where
  pub code : Bytes
  pub name : Bytes
  pub symbol : Bytes
  pub decimals : ℕ

pub record UmaInvoice : Type 0 where
  pub receiver_uma : Bytes
  pub invoice_uuid : Bytes
  pub amount : ℕ
  pub receiving_currency : InvoiceCurrency
  pub expiration : ℕ
  pub is_subject_to_travel_rule : Bool
  pub required_payer_data : Option CounterPartyDataOptions
  pub uma_versions : Bytes
  pub comment_chars_allowed : Option ℤ
  pub sender_uma : Option Bytes
  pub max_num_payments : Option ℕ
  pub kyc_status : Option KycStatus
  pub callback : Bytes
  -- A pointer to a slice, which may be nil itself.
  pub signature : Option (Option Bytes)

unfoldable pub currency_fields : InvoiceCurrency → Fields
currency_fields c = field (codes "0") (string_value c.code) (
    field (codes "1") (string_value c.name)
      (field (codes "2") (string_value c.symbol) (field (codes "3") (uint_value 8 c.decimals) end)))

-- A pointer field: `z` is the zero value of the type that it points to.
pub pointer_to {ℓ} : {A : Type ℓ} → Value → (A → Value) → Option A → Value
pointer_to z f none = nil_pointer z
pointer_to z f (some a) = pointer (f a)

-- The fields from the eighth on.
later_fields : UmaInvoice → Fields
later_fields i = field (codes "7") (string_value i.uma_versions) (
    field (codes "8") (pointer_to (int_value 64 (pos 0)) (int_value 64) i.comment_chars_allowed) (
      field (codes "9") (pointer_to (string_value []) string_value i.sender_uma) (
        field (codes "10") (pointer_to (uint_value 64 0) (uint_value 64) i.max_num_payments) (
          field (codes "11")
            (pointer_to (bytes_codable (Codable.kyc_status KycStatus.unknown))
              (λ k. bytes_codable (Codable.kyc_status k)) i.kyc_status)
            (field (codes "12") (string_value i.callback)
              (field (codes "100") (pointer_to (slice_value none) slice_value i.signature) end))))))

unfoldable pub invoice_fields : UmaInvoice → Fields
unfolding pointer_to later_fields
invoice_fields i = field (codes "0") (string_value i.receiver_uma) (
    field (codes "1") (string_value i.invoice_uuid) (
      field (codes "2") (uint_value 64 i.amount) (
        field (codes "3") (tlv_codable (currency_fields i.receiving_currency)) (
          field (codes "4") (uint_value 64 i.expiration) (
            field (codes "5") (bool_value i.is_subject_to_travel_rule) (
              field (codes "6")
                (pointer_to (bytes_codable (data_options [])) (λ c. bytes_codable (data_options c))
                  i.required_payer_data)
                (later_fields i)))))))

-- Fields as a struct again, at their kinds.
as_string : Value → Bytes
as_string (string_value s) = s
as_string _ = []

as_uint : Value → ℕ
as_uint (uint_value bits n) = n
as_uint _ = 0

as_int : Value → ℤ
as_int (int_value bits i) = i
as_int _ = pos 0

as_bool : Value → Bool
as_bool (bool_value b) = b
as_bool _ = false

as_slice : Value → Option Bytes
as_slice (slice_value s) = s
as_slice _ = none

as_options : Value → CounterPartyDataOptions
as_options (bytes_codable (data_options c)) = c
as_options _ = []

as_kyc_status : Value → KycStatus
as_kyc_status (bytes_codable (Codable.kyc_status k)) = k
as_kyc_status _ = KycStatus.unknown

as_pointer {ℓ} : {A : Type ℓ} → (Value → A) → Value → Option A
as_pointer f (pointer v) = some (f v)
as_pointer f _ = none

zero_currency : InvoiceCurrency
zero_currency = record { code = []; name = []; symbol = []; decimals = 0 }

currency_of : Fields → InvoiceCurrency
currency_of (field _ code (field _ name (field _ symbol (field _ decimals end)))) = record {
  code = as_string code;
  name = as_string name;
  symbol = as_string symbol;
  decimals = as_uint decimals;
}
currency_of _ = zero_currency

as_currency : Value → InvoiceCurrency
as_currency (tlv_codable fs) = currency_of fs
as_currency _ = zero_currency

-- var i UmaInvoice
unfoldable pub zero_invoice : UmaInvoice
unfolding zero_currency
zero_invoice = record {
  receiver_uma = [];
  invoice_uuid = [];
  amount = 0;
  receiving_currency = zero_currency;
  expiration = 0;
  is_subject_to_travel_rule = false;
  required_payer_data = none;
  uma_versions = [];
  comment_chars_allowed = none;
  sender_uma = none;
  max_num_payments = none;
  kyc_status = none;
  callback = [];
  signature = none;
}

-- The value of the field at a position; the fields keep their order.
value_at : ℕ → Fields → Value
value_at n end = Value.other_kind
value_at zero (field tag v fs) = v
value_at (suc n) (field tag v fs) = value_at n fs

unfoldable pub invoice_of : Fields → UmaInvoice
unfolding zero_currency as_string as_uint as_int as_bool as_slice as_options as_kyc_status
    as_pointer currency_of as_currency value_at
invoice_of fs = record {
  receiver_uma = as_string (value_at 0 fs);
  invoice_uuid = as_string (value_at 1 fs);
  amount = as_uint (value_at 2 fs);
  receiving_currency = as_currency (value_at 3 fs);
  expiration = as_uint (value_at 4 fs);
  is_subject_to_travel_rule = as_bool (value_at 5 fs);
  required_payer_data = as_pointer as_options (value_at 6 fs);
  uma_versions = as_string (value_at 7 fs);
  comment_chars_allowed = as_pointer as_int (value_at 8 fs);
  sender_uma = as_pointer as_string (value_at 9 fs);
  max_num_payments = as_pointer as_uint (value_at 10 fs);
  kyc_status = as_pointer as_kyc_status (value_at 11 fs);
  callback = as_string (value_at 12 fs);
  signature = as_pointer as_slice (value_at 13 fs);
}

-- (i *UmaInvoice) MarshalTLV()
unfoldable pub marshal_invoice : UmaInvoice → Result Bytes
marshal_invoice i = marshal_tlv (invoice_fields i)

-- (i *UmaInvoice) UnmarshalTLV(data)
unfoldable pub unmarshal_invoice : UmaInvoice → Bytes → Result UmaInvoice
unmarshal_invoice i s = unmarshal_tlv (invoice_fields i) s >>= λ fs. ok (invoice_of fs)

-- What the code calls of the bech32 library.
pub record Bech32 : Type 0 where
  pub convert_bits : Bytes → ℕ → ℕ → Bool → Result Bytes
  pub encode : Bytes → Bytes → Result Bytes
  pub decode_no_limit : Bytes → Result (Bytes × Bytes)

-- What is relied on: the decoder undoes the encoder for the human readable part `uma`, in lower case,
-- and the conversion from groups of five bits undoes that to them.
pub record IsBech32 (b : Bech32) : Type 0 where
  pub decode-encode :
      (groups text : Bytes)
      → b.encode (codes "uma") groups ≡ ok text
      → b.decode_no_limit text ≡ ok (codes "uma", groups)
  pub convert_back :
      (s groups : Bytes)
      → b.convert_bits s 8 5 true ≡ ok groups
      → b.convert_bits groups 5 8 false ≡ ok s

unfoldable pub to_bech32_string : Bech32 → UmaInvoice → Result Bytes
to_bech32_string b i = elim i.signature [
  | none ↦ err signature_required
  | some _ ↦ do
    tlv ← marshal_invoice i
    conv ← b.convert_bits tlv 8 5 true
    b.encode (codes "uma") conv
]

unfoldable pub from_bech32_string : Bech32 → Bytes → Result UmaInvoice
from_bech32_string b text = do
  (hrp, groups) ← b.decode_no_limit text
  guard (eqb hrp (codes "uma")) invalid_human_readable_part
  conv ← b.convert_bits groups 5 8 false
  unmarshal_invoice zero_invoice conv
