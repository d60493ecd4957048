-- ===== src/Protocol/PayeeData/RoundTrip.antt =====
-- Compliance data of the payee as a map and back (uma/protocol/payee_data.go).
use uma_go_sdk.Base.{◌≡◌, refl, Option, none, some, List, Bytes, eqb}
use uma_go_sdk.Base.Int.{ℤ, IsInt64}
use uma_go_sdk.Go.Result.{ok}
use uma_go_sdk.Go.Json.{Members, JsonLib, object, struct_of}
use uma_go_sdk.Go.Json.Decode.{decode_texts, decode_pointer, encode_pointer, decode_int, encode_int}
use uma_go_sdk.Go.Json.Laws.{
  IsFloat64, IsExactInt, get-struct_of, or_else-none, decode-text_pointer, decode-int, HasStable,
  FieldsAreStable, OptionIsStable, IsStable, struct_of-HasStable, items_of-AreStable,
  decode-items_of, text_pointer-stable, to_interface_members-id, marshal_members-id,
}
use uma_go_sdk.Protocol.PayeeData.{
  CompliancePayeeData, slice_json, payee_fields, unmarshal_payee, payee_compliance_of, payee_as_map,
}

-- A timestamp that a float64 holds exactly.
abbrev pub TimestampIsKept : Option ℤ → Type 0
TimestampIsKept none = Unit
TimestampIsKept (some t) = IsInt64 t × IsExactInt t

decode-slice : (u : Option (List Bytes)) → decode_pointer decode_texts (some (slice_json u)) ≡ ok u
unfolding decode_pointer decode_texts slice_json
decode-slice none = refl
decode-slice (some ss) = rw (decode-items_of ss) refl

decode-timestamp :
    (t : Option ℤ)
    → TimestampIsKept t
    → decode_pointer decode_int (encode_pointer encode_int t) ≡ ok t
unfolding decode_pointer encode_pointer
decode-timestamp none h = refl
decode-timestamp (some t) h = rw (decode-int t h.0) refl

pub unmarshal-fields :
    (c : CompliancePayeeData)
    → TimestampIsKept c.signature_timestamp
    → unmarshal_payee (struct_of (payee_fields c)) ≡ ok c
unfolding unmarshal_payee payee_fields eqb
unmarshal-fields c kept = simp (
  get-struct_of,
  or_else-none,
  decode-slice c.utxos,
  decode-text_pointer c.node_pub_key,
  decode-text_pointer c.utxo_callback,
  decode-text_pointer c.signature,
  decode-text_pointer c.signature_nonce,
  decode-timestamp c.signature_timestamp kept,
)

module _ (lib : JsonLib) (floats : IsFloat64 lib.float) where
  slice-IsStable : (u : Option (List Bytes)) → IsStable lib.float (slice_json u)
  unfolding slice_json
  slice-IsStable none = tt
  slice-IsStable (some ss) = items_of-AreStable lib.float ss

  timestamp-stable :
      (t : Option ℤ) → TimestampIsKept t → OptionIsStable lib.float (encode_pointer encode_int t)
  unfolding encode_pointer
  timestamp-stable none h = tt
  timestamp-stable (some t) h = floats.print_integer t h.1

  pub fields-stable :
      (c : CompliancePayeeData)
      → TimestampIsKept c.signature_timestamp
      → FieldsAreStable lib.float (payee_fields c)
  unfolding payee_fields
  fields-stable c kept = (
    text_pointer-stable lib.float c.node_pub_key,
    (
      slice-IsStable c.utxos,
      (
        text_pointer-stable lib.float c.utxo_callback,
        (
          text_pointer-stable lib.float c.signature,
          (
            text_pointer-stable lib.float c.signature_nonce,
            (timestamp-stable c.signature_timestamp kept, tt),
          ),
        ),
      ),
    ),
  )

  -- Kept compliance data become a map that `Compliance` reads back whole.
  pub payee-as_map :
      (c : CompliancePayeeData)
      → TimestampIsKept c.signature_timestamp
      → (ms : Members) × (payee_as_map lib c ≡ ok ms)
        × (payee_compliance_of (some (object ms)) ≡ ok (some c))
        × HasStable lib.float ms
  unfolding payee_as_map payee_compliance_of
  payee-as_map c kept =
      let ms = struct_of (payee_fields c) in
      let stable = struct_of-HasStable lib.float (payee_fields c) (fields-stable c kept) in
      (
        ms,
        to_interface_members-id lib.float ms stable,
        rw (marshal_members-id lib.float ms stable) (rw (unmarshal-fields c kept) refl),
        stable,
      )
