-- ===== src/Protocol/PayRequest/Query/RoundTrip.antt =====
-- The query form of a pay request of version 1 and back (uma/protocol/pay_request.go).
use uma_go_sdk.Base.{false, ◌≡◌, refl, Option, none, some, List, [], ◌∷◌, Bytes, codes, eqb}
use uma_go_sdk.Base.Int.{pos, eqb_ℤ, IsInt64}
use uma_go_sdk.Go.Result.{ok}
use uma_go_sdk.Go.Map.{Map}
use uma_go_sdk.Go.Url.{or_empty}
use uma_go_sdk.Go.Json.{JsonLib, struct_of}
use uma_go_sdk.Go.Json.Decode.{decode_struct, decode_map, encode_pointer}
use uma_go_sdk.Go.Json.Laws.{or_else-none, struct_of-HasStable, to_interface_members-id}
use uma_go_sdk.Protocol.CounterParty.Json.{decode_options, options_json, decode-options_pointer}
use uma_go_sdk.Protocol.PayRequest.{
  PayRequest, V1PayRequest, map_json, v1_fields, amount_text, as_v1, marshal_pay_request,
}
use uma_go_sdk.Protocol.PayRequest.RoundTrip.{
  CodeIsWritable, amount_parts-text, sent_data, DataIsKept, decode-map_pointer, v1_fields-stable,
}
use uma_go_sdk.Protocol.PayRequest.Query.{encode_as_url_params, parse_pay_request_from_query_params}
use uma_go_sdk.Protocol.PayRequest.Query.Params.{
  params_of, get-params_of, IsNonempty, text_param-IsNonempty, currency_param-v1,
  amount_param-parts, IsTextOf, json_param-IsTextOf, add_params-struct, text-IsParam, map-IsParam,
  options-IsParam,
}

module _ (lib : JsonLib) where
  -- The parameters of a request of version 1.
  abbrev v1_texts : V1PayRequest → Option Bytes → Option Bytes → List (Bytes × Option Bytes)
  v1_texts r payer payee =
      (codes "convert", r.receiving_currency_code)
      ∷ (codes "amount", some r.amount)
      ∷ (codes "payerData", payer)
      ∷ (codes "payeeData", payee)
      ∷ (codes "comment", r.comment)
      ∷ (codes "invoiceUUID", r.invoice_uuid)
      ∷ []

  encode-v1 :
      (p : PayRequest) (payer payee : Option Bytes)
      → eqb_ℤ p.uma_major_version (pos 0) ≡ false
      → DataIsKept lib p.payer_data
      → IsTextOf lib (encode_pointer map_json p.payer_data) payer
      → IsTextOf lib (encode_pointer options_json p.requested_payee_data) payee
      → encode_as_url_params lib p ≡ ok (params_of (v1_texts (as_v1 p) payer payee))
  unfolding encode_as_url_params marshal_pay_request decode_struct as_v1
  encode-v1 p payer payee version kept payer_text payee_text = rw version (
      rw
        (to_interface_members-id lib.float (struct_of (v1_fields (as_v1 p))) (
          struct_of-HasStable lib.float (v1_fields (as_v1 p))
            (v1_fields-stable lib (as_v1 p) kept)))
        (add_params-struct lib (v1_fields (as_v1 p)) (v1_texts (as_v1 p) payer payee) (
          unfold v1_fields in
          ((
            refl,
            text-IsParam lib p.receiving_currency_code,
            (
              refl,
              refl,
              (
                refl,
                map-IsParam lib p.payer_data payer kept payer_text,
                (
                  refl,
                  options-IsParam lib p.requested_payee_data payee payee_text,
                  (refl, text-IsParam lib p.comment, (refl, text-IsParam lib none, tt)),
                ),
              ),
            ),
          )))))

  -- A pay request of a version other than 0 is read back from its query form as one of version 1 with
  -- no invoice UUID, with payer data in which pointers to strings have become strings or nil, and all
  -- else as it was, if its currency code of the amount is not empty and has no dot, its receiving
  -- currency code and its comment are not empty, its amount is an int64, float64 keeps the numbers of
  -- its payer data, and the payer data and the options are written as texts that are read back.
  pub query-v1 :
      (p : PayRequest) (payer payee : Option Bytes)
      → eqb_ℤ p.uma_major_version (pos 0) ≡ false
      → IsInt64 p.amount
      → CodeIsWritable p.sending_amount_currency_code
      → IsNonempty p.receiving_currency_code
      → IsNonempty p.comment
      → DataIsKept lib p.payer_data
      → IsTextOf lib (encode_pointer map_json p.payer_data) payer
      → IsTextOf lib (encode_pointer options_json p.requested_payee_data) payee
      → (query : Map Bytes) × (encode_as_url_params lib p ≡ ok query)
        × (parse_pay_request_from_query_params lib query
            ≡ ok (record p {
              invoice_uuid = none;
              uma_major_version = pos 1;
              payer_data = sent_data p.payer_data;
            }))
  unfolding parse_pay_request_from_query_params or_empty eqb as_v1
  query-v1 p payer payee version int code currency comment kept payer_text payee_text = (
    params_of (v1_texts (as_v1 p) payer payee),
    encode-v1 p payer payee version kept payer_text payee_text,
    simp (
      get-params_of (v1_texts (as_v1 p) payer payee),
      or_else-none,
      amount_param-parts (amount_text p.amount p.sending_amount_currency_code) _
          (amount_parts-text p.amount p.sending_amount_currency_code int code),
      json_param-IsTextOf lib (decode_map lib.float) (encode_pointer map_json p.payer_data) payer
          payer_text,
      decode-map_pointer lib p.payer_data kept,
      json_param-IsTextOf lib decode_options (encode_pointer options_json p.requested_payee_data)
          payee payee_text,
      decode-options_pointer p.requested_payee_data,
      currency_param-v1 p.receiving_currency_code currency,
      text_param-IsNonempty p.comment comment,
    ),
  )
