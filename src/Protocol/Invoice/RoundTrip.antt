-- ===== src/Protocol/Invoice/RoundTrip.antt =====
-- An invoice (uma/protocol/invoice.go) through its TLV form, and through its bech32 text.
use uma_go_sdk.Base.{
  ◌≡◌, refl, true, false, Option, none, some, [], Bytes, codes, eqb, ap, sym, ◌∙◌, Option-cases,
  inl, inr,
}
use uma_go_sdk.Base.Int.{pos}
use uma_go_sdk.Go.Result.{ok, err, ◌>>=◌, >>=-ok, signature_required}
use uma_go_sdk.Protocol.KycStatus.{KycStatus}
use uma_go_sdk.Utils.Tlv.{
  Value, string_value, int_value, uint_value, slice_value, nil_pointer, bytes_codable,
}
use uma_go_sdk.Utils.Tlv.Coders.{Codable, data_options}
use uma_go_sdk.Utils.Tlv.RoundTrip.{zero_value, zero_fields, tlv-unmarshal-marshal}
use uma_go_sdk.Protocol.Invoice.Writable.{IsWritable, invoice-IsEncodable}
use uma_go_sdk.Protocol.Invoice.{
  UmaInvoice, currency_fields, pointer_to, invoice_fields, invoice_of, zero_invoice, as_pointer,
  as_options, as_int, as_string, as_uint, as_kyc_status, as_slice, marshal_invoice,
  unmarshal_invoice, Bech32, IsBech32, to_bech32_string, from_bech32_string,
}

zero-pointer_to :
    {A : Type 0} (z : Value) (f : A → Value) (o : Option A)
    → ((x : A) → zero_value (f x) ≡ z)
    → zero_value (pointer_to z f o) ≡ nil_pointer z
unfolding zero_value pointer_to
zero-pointer_to z f none h = refl
zero-pointer_to z f (some x) h = ap nil_pointer (h x)

-- The zero values of an invoice's fields are those of a new invoice.
zero_fields-invoice :
    (i : UmaInvoice) → zero_fields (invoice_fields i) ≡ invoice_fields zero_invoice
unfolding zero_fields invoice_fields zero_invoice currency_fields
zero_fields-invoice i = simp (
  zero-pointer_to (bytes_codable (data_options [])) (λ c. bytes_codable (data_options c))
      i.required_payer_data (λ x. refl),
  zero-pointer_to (int_value 64 (pos 0)) (int_value 64) i.comment_chars_allowed (λ x. refl),
  zero-pointer_to (string_value []) string_value i.sender_uma (λ x. refl),
  zero-pointer_to (uint_value 64 0) (uint_value 64) i.max_num_payments (λ x. refl),
  zero-pointer_to (bytes_codable (Codable.kyc_status KycStatus.unknown))
      (λ k. bytes_codable (Codable.kyc_status k)) i.kyc_status (λ x. refl),
  zero-pointer_to (slice_value none) slice_value i.signature (λ x. refl),
)

as-pointer_to :
    {A : Type 0} (z : Value) (f : A → Value) (g : Value → A) (o : Option A)
    → ((x : A) → g (f x) ≡ x)
    → as_pointer g (pointer_to z f o) ≡ o
unfolding as_pointer pointer_to
as-pointer_to z f g none h = refl
as-pointer_to z f g (some x) h = ap some (h x)

invoice_of-fields : (i : UmaInvoice) → invoice_of (invoice_fields i) ≡ i
unfolding invoice_of invoice_fields currency_fields
invoice_of-fields i = λ j. record {
  receiver_uma = i.receiver_uma;
  invoice_uuid = i.invoice_uuid;
  amount = i.amount;
  receiving_currency = i.receiving_currency;
  expiration = i.expiration;
  is_subject_to_travel_rule = i.is_subject_to_travel_rule;
  required_payer_data =
      as-pointer_to (bytes_codable (data_options [])) (λ c. bytes_codable (data_options c))
        as_options i.required_payer_data (λ x. refl) j;
  uma_versions = i.uma_versions;
  comment_chars_allowed =
      as-pointer_to (int_value 64 (pos 0)) (int_value 64) as_int i.comment_chars_allowed (λ x. refl)
        j;
  sender_uma = as-pointer_to (string_value []) string_value as_string i.sender_uma (λ x. refl) j;
  max_num_payments =
      as-pointer_to (uint_value 64 0) (uint_value 64) as_uint i.max_num_payments (λ x. refl) j;
  kyc_status =
      as-pointer_to (bytes_codable (Codable.kyc_status KycStatus.unknown))
        (λ k. bytes_codable (Codable.kyc_status k)) as_kyc_status i.kyc_status (λ x. refl) j;
  callback = i.callback;
  signature = as-pointer_to (slice_value none) slice_value as_slice i.signature (λ x. refl) j;
}

-- A writable invoice has a TLV form, and a new invoice that reads that form is equal to it.
pub unmarshal-marshal_invoice :
    (i : UmaInvoice)
    → IsWritable i
    → (s : Bytes) × (marshal_invoice i ≡ ok s) × (unmarshal_invoice zero_invoice s ≡ ok i)
unmarshal-marshal_invoice i w =
    let (s, written, read) = tlv-unmarshal-marshal (invoice_fields i) (invoice-IsEncodable i w) in
    (
      s,
      unfold marshal_invoice in written,
      unfold unmarshal_invoice in rw (← zero_fields-invoice i, read) (ap ok (invoice_of-fields i)),
    )

to_bech32-none :
    (b : Bech32) (i : UmaInvoice)
    → i.signature ≡ none
    → to_bech32_string b i ≡ err signature_required
to_bech32-none b i q = unfold to_bech32_string in rw q

to_bech32-some :
    (b : Bech32) (i : UmaInvoice) (o : Option Bytes)
    → i.signature ≡ some o
    → to_bech32_string b i ≡ (do
      tlv ← marshal_invoice i
      conv ← b.convert_bits tlv 8 5 true
      b.encode (codes "uma") conv)
to_bech32-some b i o q = unfold to_bech32_string in rw q

to_bech32-inv :
    (b : Bech32) (i : UmaInvoice) (text : Bytes)
    → to_bech32_string b i ≡ ok text
    → (tlv : Bytes) × (groups : Bytes) × (marshal_invoice i ≡ ok tlv)
      × (b.convert_bits tlv 8 5 true ≡ ok groups)
      × (b.encode (codes "uma") groups ≡ ok text)
to_bech32-inv b i text e = elim (Option-cases i.signature) [
  | inl q ↦ cc (to_bech32-none b i q)
  | inr (o, q) ↦
      let (tlv, written, e₁) =
        >>=-ok (marshal_invoice i)
          (λ tlv. do conv ← b.convert_bits tlv 8 5 true; b.encode (codes "uma") conv)
          {result = text} (sym (to_bech32-some b i o q) ∙ e) in
      let (groups, converted, e₂) =
        >>=-ok (b.convert_bits tlv 8 5 true) (λ conv. b.encode (codes "uma") conv) {result = text}
          e₁ in
      (tlv, groups, written, converted, e₂)
]

decoded :
    (b : Bech32) (text groups tlv : Bytes) (i : UmaInvoice)
    → b.decode_no_limit text ≡ ok (codes "uma", groups)
    → b.convert_bits groups 5 8 false ≡ ok tlv
    → unmarshal_invoice zero_invoice tlv ≡ ok i
    → from_bech32_string b text ≡ ok i
decoded b text groups tlv i d c u = unfold from_bech32_string eqb in simp (d, c, u)

-- Where the bech32 library encodes a signed invoice, the text is decoded to the same invoice, if the
-- library decodes what it encodes with the human readable part `uma`, each content of the invoice has
-- at most 255 bytes, its numbers fit in their types, its status, if any, has a constant, its
-- signature is not nil, and its options, if any, are not empty and have distinct keys that hold neither
-- a colon nor a comma.
pub from-to_bech32_string :
    (b : Bech32) (i : UmaInvoice) (text : Bytes)
    → IsBech32 b
    → IsWritable i
    → to_bech32_string b i ≡ ok text
    → from_bech32_string b text ≡ ok i
from-to_bech32_string b i text laws w e =
    let (tlv, groups, written, converted, encoded) = to_bech32-inv b i text e in
    let (s, written', read) = unmarshal-marshal_invoice i w in
    let same : s ≡ tlv = cc in
    decoded b text groups tlv i (laws.decode-encode groups text encoded)
      (laws.convert_back tlv groups converted) (rw (← same) read)
