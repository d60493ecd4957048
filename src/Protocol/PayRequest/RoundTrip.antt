-- ===== src/Protocol/PayRequest/RoundTrip.antt =====
-- The JSON forms of a pay request and back (uma/protocol/pay_request.go).
pub mod VersionZero
use uma_go_sdk.Base.{
  Bool, true, false, ◌||◌, ◌≡◌, ◌≢◌, refl, ◌∙◌, arith, Option, none, some, [], ◌∷◌, Bytes, codes,
  eqb, Lacks,
}
use uma_go_sdk.Base.Int.{ℤ, pos, eqb_ℤ, IsInt64}
use uma_go_sdk.Go.Result.{ok}
use uma_go_sdk.Go.Strings.{split, split-append, split-Lacks}
use uma_go_sdk.Go.Strconv.{format_int}
use uma_go_sdk.Go.Strconv.RoundTrip.{parse_int-format_int, format_int-Lacks, IsSeparator}
use uma_go_sdk.Go.Json.{JsonLib, text, object, get_member, struct_of, marshal_members}
use uma_go_sdk.Go.Json.Decode.{
  decode_text, decode_pointer, encode_pointer, decode_map, decode_struct,
}
use uma_go_sdk.Go.Json.Laws.{
  get-struct_of, or_else-none, decode-text_pointer, HasStable, FieldsAreStable, OptionIsStable,
  struct_of-HasStable, text_pointer-stable, to_interface_members-id,
}
use uma_go_sdk.Protocol.CounterParty.Json.{decode-options_pointer, options_pointer-stable}
use uma_go_sdk.Protocol.PayerData.{PayerData}
use uma_go_sdk.Protocol.PayRequest.{
  PayRequest, zero_pay_request, V1PayRequest, map_json, v1_fields, amount_text, as_v1,
  marshal_pay_request, amount_parts, set_code, unmarshal_from_v1, amount_is_string, decode_v1,
  unmarshal_pay_request,
}

dot-IsSeparator : IsSeparator b'.'
dot-IsSeparator = (omega arith, λ c h e. omega arith)

-- A currency code without a dot.
abbrev pub CodeIsWritable : Option Bytes → Type 0
CodeIsWritable none = Unit
CodeIsWritable (some code) = Lacks b'.' code × (code ≢ [])

pub amount_parts-text :
    (a : ℤ) (code : Option Bytes)
    → IsInt64 a
    → CodeIsWritable code
    → amount_parts (split b'.' (amount_text a code)) ≡ ok (a, code)
unfolding amount_parts amount_text
amount_parts-text a none h k =
    rw (split-Lacks b'.' (format_int a) (format_int-Lacks b'.' a dot-IsSeparator))
      (rw (parse_int-format_int a h) refl)
amount_parts-text a (some code) h k =
    rw (split-append b'.' (format_int a) code (format_int-Lacks b'.' a dot-IsSeparator))
      (rw (split-Lacks b'.' code k.0) (rw (parse_int-format_int a h) refl))

set_code-none : (code : Option Bytes) → CodeIsWritable code → set_code code none ≡ code
unfolding set_code
set_code-none none h = refl
set_code-none (some []) h = absurd (h.1 refl)
set_code-none (some (c ∷ s)) h = refl

-- Payer data as a receiver has them: pointers to strings have become strings or nil.
abbrev pub sent_data : Option PayerData → Option PayerData
sent_data none = none
sent_data (some ms) = some (marshal_members ms)

module _ (lib : JsonLib) where
  -- Payer data whose document a map holds as it is.
  abbrev pub DataIsKept : Option PayerData → Type 0
  DataIsKept none = Unit
  DataIsKept (some ms) = HasStable lib.float (marshal_members ms)

  pub decode-map_pointer :
      (p : Option PayerData)
      → DataIsKept p
      → decode_pointer (decode_map lib.float) (encode_pointer map_json p) ≡ ok (sent_data p)
  unfolding decode_pointer encode_pointer decode_map
  decode-map_pointer none h = refl
  decode-map_pointer (some ms) h =
      rw (to_interface_members-id lib.float (marshal_members ms) h) refl

  pub map_pointer-stable :
      (p : Option PayerData) → DataIsKept p → OptionIsStable lib.float (encode_pointer map_json p)
  unfolding encode_pointer
  map_pointer-stable none h = tt
  map_pointer-stable (some ms) h = h

  decode_v1-fields :
      (r : V1PayRequest)
      → DataIsKept r.payer_data
      → decode_v1 lib (struct_of (v1_fields r))
        ≡ ok (record r { payer_data = sent_data r.payer_data })
  unfolding decode_v1 v1_fields eqb decode_text
  decode_v1-fields r kept = simp (
    get-struct_of,
    or_else-none,
    decode-text_pointer r.receiving_currency_code,
    decode-map_pointer r.payer_data kept,
    decode-options_pointer r.requested_payee_data,
    decode-text_pointer r.comment,
    decode-text_pointer r.invoice_uuid,
  )

  pub v1_fields-stable :
      (r : V1PayRequest) → DataIsKept r.payer_data → FieldsAreStable lib.float (v1_fields r)
  unfolding v1_fields
  v1_fields-stable r kept = (
    text_pointer-stable lib.float r.receiving_currency_code,
    (
      tt,
      (
        map_pointer-stable r.payer_data kept,
        (
          options_pointer-stable lib.float r.requested_payee_data,
          (
            text_pointer-stable lib.float r.comment,
            (text_pointer-stable lib.float r.invoice_uuid, tt),
          ),
        ),
      ),
    ),
  )

  v1_amount :
      (r : V1PayRequest)
      → get_member (codes "amount") (struct_of (v1_fields r)) ≡ some (text r.amount)
  unfolding v1_fields eqb
  v1_amount r = rw (get-struct_of (codes "amount") (v1_fields r)) refl

  or-true : (b : Bool) → (b || true) ≡ true
  or-true true = refl
  or-true false = refl

  unmarshal-v1 :
      (p : PayRequest) (r : V1PayRequest)
      → DataIsKept r.payer_data
      → unmarshal_pay_request lib p (object (struct_of (v1_fields r)))
        ≡ unmarshal_from_v1 p (record r { payer_data = sent_data r.payer_data })
  unfolding unmarshal_pay_request decode_struct amount_is_string
  unmarshal-v1 p r kept = simp (
    to_interface_members-id lib.float (struct_of (v1_fields r))
        (struct_of-HasStable lib.float (v1_fields r) (v1_fields-stable r kept)),
    v1_amount r,
    or-true,
    decode_v1-fields r kept,
  )

  -- A pay request of a version other than 0 is read back from its JSON form as one of version 1 with
  -- no invoice UUID, with payer data in which pointers to strings have become strings or nil, and all
  -- else as it was, if its currency code of the amount is not empty and has no dot, its amount is an
  -- int64, and float64 keeps the numbers of its payer data.
  pub v1-unmarshal-marshal :
      (p : PayRequest)
      → eqb_ℤ p.uma_major_version (pos 0) ≡ false
      → IsInt64 p.amount
      → CodeIsWritable p.sending_amount_currency_code
      → DataIsKept p.payer_data
      → unmarshal_pay_request lib zero_pay_request (marshal_pay_request p)
        ≡ ok (record p {
          invoice_uuid = none;
          uma_major_version = pos 1;
          payer_data = sent_data p.payer_data;
        })
  unfolding marshal_pay_request unmarshal_from_v1 as_v1
  v1-unmarshal-marshal p version h code kept = rw version (
      unmarshal-v1 zero_pay_request (as_v1 p) kept
      ∙ rw (amount_parts-text p.amount p.sending_amount_currency_code h code)
          (rw (set_code-none p.sending_amount_currency_code code) refl))
