-- ===== src/Protocol/PayRequest/RoundTrip/VersionZero.antt =====
-- The JSON form of a pay request of version 0 and back (uma/protocol/pay_request.go).
use uma_go_sdk.Base.{◌≡◌, refl, none, some, codes, eqb}
use uma_go_sdk.Base.Int.{pos, IsInt64}
use uma_go_sdk.Go.Result.{ok}
use uma_go_sdk.Go.Json.{JsonLib, object, get_member, struct_of}
use uma_go_sdk.Go.Json.Decode.{decode_text, encode_int, decode_struct}
use uma_go_sdk.Go.Json.Laws.{
  IsFloat64, IsExactInt, get-struct_of, or_else-none, decode-text_pointer, decode-int,
  FieldsAreStable, struct_of-HasStable, text_pointer-stable, to_interface_members-id,
}
use uma_go_sdk.Protocol.CounterParty.Json.{decode-options_pointer, options_pointer-stable}
use uma_go_sdk.Protocol.PayRequest.{
  PayRequest, zero_pay_request, V0PayRequest, v0_fields, as_v0, marshal_pay_request,
  unmarshal_from_v0, amount_is_string, is_text, decode_v0, unmarshal_pay_request,
}
use uma_go_sdk.Protocol.PayRequest.RoundTrip.{
  sent_data, DataIsKept, decode-map_pointer, map_pointer-stable,
}

module _ (lib : JsonLib) where
  decode_v0-fields :
      (r : V0PayRequest)
      → IsInt64 r.amount
      → DataIsKept lib r.payer_data
      → decode_v0 lib (struct_of (v0_fields r))
        ≡ ok (record r { payer_data = sent_data r.payer_data })
  unfolding decode_v0 v0_fields eqb decode_text
  decode_v0-fields r h kept = simp (
    get-struct_of,
    or_else-none,
    decode-text_pointer r.receiving_currency_code,
    decode-map_pointer lib r.payer_data kept,
    decode-options_pointer r.requested_payee_data,
    decode-text_pointer r.comment,
    decode-int r.amount h,
  )

  pub v0_fields-stable :
      IsFloat64 lib.float
      → (r : V0PayRequest) → IsExactInt r.amount
      → DataIsKept lib r.payer_data
      → FieldsAreStable lib.float (v0_fields r)
  unfolding v0_fields
  v0_fields-stable floats r exact kept = (
    text_pointer-stable lib.float r.receiving_currency_code,
    (
      floats.print_integer r.amount exact,
      (
        map_pointer-stable lib r.payer_data kept,
        (
          options_pointer-stable lib.float r.requested_payee_data,
          (text_pointer-stable lib.float r.comment, tt),
        ),
      ),
    ),
  )

  v0_amount :
      (r : V0PayRequest)
      → get_member (codes "amount") (struct_of (v0_fields r)) ≡ some (encode_int r.amount)
  unfolding v0_fields eqb
  v0_amount r = rw (get-struct_of (codes "amount") (v0_fields r)) refl

  v0_convert : (r : V0PayRequest) → get_member (codes "convert") (struct_of (v0_fields r)) ≡ none
  unfolding v0_fields eqb
  v0_convert r = rw (get-struct_of (codes "convert") (v0_fields r)) refl

  unmarshal-v0 :
      IsFloat64 lib.float
      → (p : PayRequest) (r : V0PayRequest) → IsInt64 r.amount
      → IsExactInt r.amount
      → DataIsKept lib r.payer_data
      → unmarshal_pay_request lib p (object (struct_of (v0_fields r)))
        ≡ unmarshal_from_v0 p (record r { payer_data = sent_data r.payer_data })
  unfolding unmarshal_pay_request decode_struct amount_is_string is_text
  unmarshal-v0 floats p r h exact kept = simp (
    to_interface_members-id lib.float (struct_of (v0_fields r))
        (struct_of-HasStable lib.float (v0_fields r) (v0_fields-stable floats r exact kept)),
    v0_amount r,
    v0_convert r,
    decode_v0-fields r h kept,
  )

  -- A pay request of version 0 is read back from its JSON form with neither an invoice UUID nor the
  -- currency code of the amount, with payer data in which pointers to strings have become strings or
  -- nil, and all else as it was, if its amount is an int64 that a float64 holds exactly, and float64
  -- keeps the numbers of its payer data.
  v0-unmarshal-marshal :
      IsFloat64 lib.float
      → (p : PayRequest) → p.uma_major_version ≡ pos 0
      → IsInt64 p.amount
      → IsExactInt p.amount
      → DataIsKept lib p.payer_data
      → unmarshal_pay_request lib zero_pay_request (marshal_pay_request p)
        ≡ ok (record p {
          invoice_uuid = none;
          sending_amount_currency_code = none;
          payer_data = sent_data p.payer_data;
        })
  unfolding marshal_pay_request unmarshal_from_v0 as_v0
  v0-unmarshal-marshal floats p version h exact kept =
      rw version (unmarshal-v0 floats zero_pay_request (as_v0 p) h exact kept)
