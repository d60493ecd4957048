-- ===== src/Protocol/PayReqResponse/RoundTrip.antt =====
-- The JSON forms of a pay request response and back (uma/protocol/payreq_response.go).
pub mod VersionZero
use uma_go_sdk.Base.{
  ℕ, Bool, true, false, ◌≡◌, refl, ap, arith, Option, none, some, List, [], ◌∷◌, Bytes, codes, eqb,
  if◌then◌else◌,
}
use uma_go_sdk.Base.Int.{ℤ, pos, eqb_ℤ, IsInt64}
use uma_go_sdk.Go.Result.{Result, ok, ◌>>=◌}
use uma_go_sdk.Go.Json.{
  Json, Members, JsonLib, Float64, boolean, text, object, get_member, struct_of,
  to_interface_members,
}
use uma_go_sdk.Go.Json.Decode.{
  decode_text, decode_bool, decode_int, decode_float, decode_struct, decode_map, decode_pointer,
  encode_pointer, encode_int,
}
use uma_go_sdk.Go.Json.Slices.{
  encode_slice, decode_slice, AllOf, decode-encode_slice, decode-bool_pointer,
  encode_slice-IsStable, text_map_json, decode_text_map, decode-text_members,
  text_members-HasStable,
}
use uma_go_sdk.Go.Json.Laws.{
  IsFloat64, IsKeptInt, get-struct_of, or_else-none, decode-int, FieldsAreStable, OptionIsStable,
  IsStable, struct_of-HasStable, to_interface_members-id,
}
use uma_go_sdk.Protocol.PayRequest.{map_json}
use uma_go_sdk.Protocol.PayRequest.RoundTrip.{
  sent_data, DataIsKept, decode-map_pointer, map_pointer-stable,
}
use uma_go_sdk.Protocol.PayReqResponse.{Hop, Route, PayReqResponsePaymentInfo, PayReqResponse}
use uma_go_sdk.Protocol.PayReqResponse.Json.{
  hop_fields, hop_json, route_fields, route_json, decode_hop, decode_route, v0_payment_fields,
  v1_payment_fields, payment_json, v1_response_fields, marshal_payreq_response, decode_v1_payment,
  decode_response, unmarshal_payreq_response,
}

abbrev pub HopIsKept : Hop → Type 0
HopIsKept h = IsKeptInt h.fee × IsKeptInt h.msatoshi

abbrev pub RouteIsKept : Route → Type 0
RouteIsKept r = AllOf HopIsKept r.path

hop_read : (h : Hop) → HopIsKept h → decode_hop (some (hop_json h)) ≡ ok h
unfolding decode_hop hop_fields decode_struct eqb decode_text
hop_read h kept = simp (get-struct_of, decode-int h.fee kept.0.0, decode-int h.msatoshi kept.1.0)

pub route_read : (r : Route) → RouteIsKept r → decode_route (some (route_json r)) ≡ ok r
unfolding decode_route route_fields decode_struct eqb decode_text
route_read r kept =
    simp (get-struct_of, decode-encode_slice HopIsKept hop_json decode_hop hop_read r.path kept)

-- An amount that may be missing.
abbrev pub AmountIsKept : Option ℤ → Type 0
AmountIsKept none = Unit
AmountIsKept (some a) = IsKeptInt a

decode-int_pointer :
    (a : Option ℤ) → AmountIsKept a → decode_pointer decode_int (encode_pointer encode_int a) ≡ ok a
unfolding decode_pointer encode_pointer
decode-int_pointer none h = refl
decode-int_pointer (some a) h = rw (decode-int a h.0) refl

pub decode-text_map_pointer :
    (m : Option (List (Bytes × Bytes)))
    → decode_pointer decode_text_map (encode_pointer text_map_json m) ≡ ok m
unfolding decode_pointer encode_pointer decode_text_map
decode-text_map_pointer none = refl
decode-text_map_pointer (some m) = rw (decode-text_members m) refl

-- Payment information whose multiplier float64 writes as `s`, with integers that are kept.
pub record PaymentIsKept (float : Float64) (p : PayReqResponsePaymentInfo) (s : Bytes)
    : Type 0 where
  pub printed : float.print p.multiplier ≡ ok s
  pub amount : AmountIsKept p.amount
  pub decimals : IsKeptInt p.decimals
  pub fees : IsKeptInt p.exchange_fees_millisatoshi

abbrev pub OptionalPaymentIsKept : Float64 → Option PayReqResponsePaymentInfo → Type 0
OptionalPaymentIsKept float none = Unit
OptionalPaymentIsKept float (some p) = (s : Bytes) × PaymentIsKept float p s

-- A response whose numbers every step keeps.
pub record ResponseIsKept (lib : JsonLib) (p : PayReqResponse) : Type 0 where
  pub routes : AllOf RouteIsKept p.routes
  pub payment : OptionalPaymentIsKept lib.float p.payment_info
  pub payee : DataIsKept lib p.payee_data

module _ (lib : JsonLib) (floats : IsFloat64 lib.float) where
  pub hop-IsStable : (h : Hop) → HopIsKept h → IsStable lib.float (hop_json h)
  unfolding hop_fields struct_of
  hop-IsStable h kept =
      (tt, (floats.print_integer _ kept.0.1, (floats.print_integer _ kept.1.1, (tt, tt))))

  pub route-IsStable : (r : Route) → RouteIsKept r → IsStable lib.float (route_json r)
  unfolding route_fields struct_of
  route-IsStable r kept =
      (tt, (encode_slice-IsStable HopIsKept hop_json lib.float hop-IsStable r.path kept, tt))

  amount_stable :
      (a : Option ℤ) → AmountIsKept a → OptionIsStable lib.float (encode_pointer encode_int a)
  unfolding encode_pointer
  amount_stable none h = tt
  amount_stable (some a) h = floats.print_integer a h.1

  pub bool_stable : (b : Option Bool) → OptionIsStable lib.float (encode_pointer boolean b)
  unfolding encode_pointer
  bool_stable none = tt
  bool_stable (some b) = tt

  pub text_map_stable :
      (m : Option (List (Bytes × Bytes)))
      → OptionIsStable lib.float (encode_pointer text_map_json m)
  unfolding encode_pointer
  text_map_stable none = tt
  text_map_stable (some m) = text_members-HasStable lib.float m

  module _ (p : PayReqResponsePaymentInfo) (s : Bytes) (kept : PaymentIsKept lib.float p s) where
    multiplier_read : lib.float.parse s ≡ ok p.multiplier
    multiplier_read = floats.parse-print p.multiplier s kept.printed

    payment_stable : FieldsAreStable lib.float (v1_payment_fields p s)
    unfolding v1_payment_fields
    payment_stable = (
      amount_stable p.amount kept.amount,
      (
        tt,
        (
          rw multiplier_read kept.printed,
          (floats.print_integer _ kept.decimals.1, (floats.print_integer _ kept.fees.1, tt)),
        ),
      ),
    )

    payment_read : decode_v1_payment lib (some (object (struct_of (v1_payment_fields p s)))) ≡ ok p
    unfolding decode_v1_payment v1_payment_fields decode_struct eqb decode_text decode_float
    payment_read = simp (
      get-struct_of,
      or_else-none,
      decode-int_pointer p.amount kept.amount,
      multiplier_read,
      decode-int p.decimals kept.decimals.0,
      decode-int p.exchange_fees_millisatoshi kept.fees.0,
    )

  -- Payment information that is kept is written as a stable value that is read back.
  pub payment_written :
      (p : Option PayReqResponsePaymentInfo)
      → OptionalPaymentIsKept lib.float p
      → (v : Option Json) × (payment_json lib.float v1_payment_fields p ≡ ok v)
        × (decode_pointer (decode_v1_payment lib) v ≡ ok p)
        × OptionIsStable lib.float v
  unfolding payment_json decode_pointer
  payment_written none kept = (none, refl, refl, tt)
  payment_written (some p) (s, kept) = (
    some (object (struct_of (v1_payment_fields p s))),
    rw kept.printed refl,
    rw (payment_read p s kept) refl,
    struct_of-HasStable lib.float (v1_payment_fields p s) (payment_stable p s kept),
  )

  module _ (p : PayReqResponse) (kept : ResponseIsKept lib p) where
    response_stable :
        (v : Option Json)
        → OptionIsStable lib.float v
        → FieldsAreStable lib.float (v1_response_fields p v)
    unfolding v1_response_fields
    response_stable v stable = (
      tt,
      (
        encode_slice-IsStable RouteIsKept route_json lib.float route-IsStable p.routes kept.routes,
        (
          stable,
          (
            map_pointer-stable lib p.payee_data kept.payee,
            (bool_stable p.disposable, (text_map_stable p.success_action, tt)),
          ),
        ),
      ),
    )

    response_read :
        (v : Option Json)
        → decode_pointer (decode_v1_payment lib) v ≡ ok p.payment_info
        → OptionIsStable lib.float v
        → unmarshal_payreq_response lib (object (struct_of (v1_response_fields p v)))
          ≡ ok (record p { payee_data = sent_data p.payee_data; uma_major_version = pos 1 })
    unfolding unmarshal_payreq_response decode_response v1_response_fields decode_struct decode_text
        eqb
    response_read v read stable = simp (
      to_interface_members-id lib.float (struct_of (v1_response_fields p v))
          (struct_of-HasStable lib.float (v1_response_fields p v) (response_stable v stable)),
      get-struct_of,
      or_else-none,
      read,
      decode-encode_slice RouteIsKept route_json decode_route route_read p.routes kept.routes,
      decode-map_pointer lib p.payee_data kept.payee,
      decode-bool_pointer p.disposable,
      decode-text_map_pointer p.success_action,
    )

    -- A pay request response of version 1 is written, and read back with payee data in which pointers
    -- to strings have become strings or nil, and all else as it was, if its multiplier can be written
    -- and is read back, its other numbers are int64 and kept by float64, and so are the numbers of its
    -- payee data.
    pub response-unmarshal-marshal :
        p.uma_major_version ≡ pos 1
        → (marshal_payreq_response lib.float p >>= unmarshal_payreq_response lib)
          ≡ ok (record p { payee_data = sent_data p.payee_data })
    unfolding marshal_payreq_response v1_response_fields
    response-unmarshal-marshal version =
        let (v, written, read, stable) = payment_written p.payment_info kept.payment in
        rw version (rw written (response_read v read stable))
