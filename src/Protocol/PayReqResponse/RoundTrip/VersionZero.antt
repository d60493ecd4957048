-- ===== src/Protocol/PayReqResponse/RoundTrip/VersionZero.antt =====
-- The JSON form of a pay request response of version 0 and back (uma/protocol/payreq_response.go).
use uma_go_sdk.Base.{◌≡◌, Option, none, some, List, Bytes, codes, eqb}
use uma_go_sdk.Base.Int.{pos}
use uma_go_sdk.Go.Result.{ok, ◌>>=◌}
use uma_go_sdk.Go.Json.{Json, Members, JsonLib, object, set_member, struct_of, marshal_members}
use uma_go_sdk.Go.Json.Decode.{
  decode_text, decode_float, decode_struct, decode_pointer, encode_pointer,
}
use uma_go_sdk.Go.Json.Slices.{
  decode-bool_pointer, AllOf, decode-encode_slice, encode_slice-IsStable,
}
use uma_go_sdk.Go.Json.Laws.{
  IsFloat64, get-struct_of, or_else-none, decode-int, FieldsAreStable, struct_of-HasStable,
  to_interface_members-id,
}
use uma_go_sdk.Protocol.PayeeData.{
  PayeeData, CompliancePayeeData, payee_fields, payee_compliance, payee_compliance_of, payee_as_map,
}
use uma_go_sdk.Protocol.PayeeData.RoundTrip.{
  TimestampIsKept, unmarshal-fields, fields-stable, payee-as_map,
}
use uma_go_sdk.Protocol.PayRequest.RoundTrip.{DataIsKept, decode-map_pointer, map_pointer-stable}
use uma_go_sdk.Protocol.PayReqResponse.{PayReqResponsePaymentInfo, PayReqResponse}
use uma_go_sdk.Protocol.PayReqResponse.Json.{
  route_json, decode_route, v0_payment_fields, payment_json, v0_response_fields, payee_json,
  marshal_payreq_response, decode_v0_payment, decode_response, with_compliance, decode_v0_response,
  unmarshal_payreq_response,
}
use uma_go_sdk.Protocol.PayReqResponse.RoundTrip.{
  RouteIsKept, PaymentIsKept, route_read, route-IsStable, bool_stable, decode-text_map_pointer,
  text_map_stable,
}

module _ (lib : JsonLib) (floats : IsFloat64 lib.float) (p : PayReqResponse)
    (payment : PayReqResponsePaymentInfo) (s : Bytes)
    (kept : PaymentIsKept lib.float payment s) where
  multiplier_read : lib.float.parse s ≡ ok payment.multiplier
  multiplier_read = floats.parse-print payment.multiplier s kept.printed

  abbrev payment_members : Members
  payment_members = struct_of (v0_payment_fields payment s)

  payment_stable : FieldsAreStable lib.float (v0_payment_fields payment s)
  unfolding v0_payment_fields
  payment_stable = (
    tt,
    (
      rw multiplier_read kept.printed,
      (floats.print_integer _ kept.decimals.1, (floats.print_integer _ kept.fees.1, tt)),
    ),
  )

  payment_read :
      decode_v0_payment lib (some (object payment_members)) ≡ ok (record payment { amount = none })
  unfolding decode_v0_payment v0_payment_fields decode_struct eqb decode_text decode_float
  payment_read = simp (
    get-struct_of,
    or_else-none,
    multiplier_read,
    decode-int payment.decimals kept.decimals.0,
    decode-int payment.exchange_fees_millisatoshi kept.fees.0,
  )

  module _ (routes : AllOf RouteIsKept p.routes) (d : PayeeData) (has_data : p.payee_data ≡ some d)
      (data_kept : DataIsKept lib (some d)) (c : CompliancePayeeData)
      (timestamp : TimestampIsKept c.signature_timestamp) where
    abbrev fields : List (Bytes × Option Json)
    fields = v0_response_fields p (some (object payment_members)) (some c)

    fields_stable : FieldsAreStable lib.float fields
    unfolding v0_response_fields payee_json encode_pointer
    fields_stable = (
      tt,
      (
        encode_slice-IsStable RouteIsKept route_json lib.float (route-IsStable lib floats) p.routes
            routes,
        (
          struct_of-HasStable lib.float (v0_payment_fields payment s) payment_stable,
          (
            map_pointer-stable lib p.payee_data (rw has_data data_kept),
            (
              bool_stable lib floats p.disposable,
              (
                text_map_stable lib floats p.success_action,
                (
                  struct_of-HasStable lib.float (payee_fields c)
                      (fields-stable lib floats c timestamp),
                  tt,
                ),
              ),
            ),
          ),
        ),
      ),
    )

    fields_read :
        (ms : Members)
        → payee_as_map lib c ≡ ok ms
        → unmarshal_payreq_response lib (object (struct_of fields))
          ≡ ok (record p {
            payment_info = some (record payment { amount = none });
            payee_data = some (set_member (codes "compliance") (object ms) (marshal_members d));
            uma_major_version = pos 0;
          })
    unfolding unmarshal_payreq_response decode_v0_response decode_response v0_response_fields
        decode_struct decode_text eqb payee_json encode_pointer decode_pointer with_compliance
    fields_read ms as_map =
        rw
          (to_interface_members-id lib.float (struct_of fields)
            (struct_of-HasStable lib.float fields fields_stable))
          (simp (
            get-struct_of,
            or_else-none,
            payment_read,
            has_data,
            decode-encode_slice RouteIsKept route_json decode_route route_read p.routes routes,
            decode-map_pointer lib (some d) data_kept,
            decode-bool_pointer p.disposable,
            decode-text_map_pointer p.success_action,
            unmarshal-fields c timestamp,
            as_map,
          ))

    -- A pay request response of version 0 with payment information and compliance data is written and
    -- read back with the same compliance data in a map, the payment information without its amount,
    -- and all else as it was marshalled, if the multiplier can be written, the timestamp and the other
    -- numbers are int64 and kept by float64.
    pub v0_response-unmarshal-marshal :
        p.uma_major_version ≡ pos 0
        → p.payment_info ≡ some payment
        → payee_compliance (some d) ≡ ok (some c)
        → (ms : Members) × ((marshal_payreq_response lib.float p >>= unmarshal_payreq_response lib)
            ≡ ok (record p {
              payment_info = some (record payment { amount = none });
              payee_data = some (set_member (codes "compliance") (object ms) (marshal_members d));
            }))
          × (payee_compliance_of (some (object ms)) ≡ ok (some c))
    unfolding marshal_payreq_response payment_json v0_response_fields
    v0_response-unmarshal-marshal version has_payment has_compliance =
        let (ms, as_map, read, stable) = payee-as_map lib floats c timestamp in
        let found : payee_compliance p.payee_data ≡ ok (some c) = rw has_data has_compliance in
        (ms, simp (version, has_payment, found, kept.printed) (fields_read ms as_map), read)
