-- ===== src/Protocol/PayRequest/Query/VersionZero.antt =====
-- The query form of a pay request of version 0 and back (uma/protocol/pay_request.go).
use uma_go_sdk.Base.{◌≡◌, refl, Option, none, some, List, [], ◌∷◌, Bytes, codes, eqb}
use uma_go_sdk.Base.Int.{pos, IsInt64}
use uma_go_sdk.Go.Result.{ok}
use uma_go_sdk.Go.Strconv.{format_int}
use uma_go_sdk.Go.Map.{Map}
use uma_go_sdk.Go.Url.{or_empty}
use uma_go_sdk.Go.Json.{JsonLib, struct_of}
use uma_go_sdk.Go.Json.Decode.{decode_struct, decode_map, encode_pointer}
use uma_go_sdk.Go.Json.Laws.{
  IsFloat64, IsExactInt, or_else-none, struct_of-HasStable, to_interface_members-id,
}
use uma_go_sdk.Protocol.CounterParty.Json.{decode_options, options_json, decode-options_pointer}
use uma_go_sdk.Protocol.PayRequest.{
  PayRequest, V0PayRequest, map_json, v0_fields, amount_text, as_v0, marshal_pay_request,
}
use uma_go_sdk.Protocol.PayRequest.RoundTrip.{
  amount_parts-text, sent_data, DataIsKept, decode-map_pointer,
}
use uma_go_sdk.Protocol.PayRequest.RoundTrip.VersionZero.{v0_fields-stable}
use uma_go_sdk.Protocol.PayRequest.Query.{encode_as_url_params, parse_pay_request_from_query_params}
use uma_go_sdk.Protocol.PayRequest.Query.Params.{
  params_of, get-params_of, IsNonempty, text_param-IsNonempty, currency_param-v0, v0_version,
  amount_param-parts, IsTextOf, json_param-IsTextOf, IsPlain, add_params-struct, text-IsParam,
  map-IsParam, options-IsParam, number-IsParam,
}

module _ (lib : JsonLib) where
  -- The parameters of a request of version 0.
  abbrev v0_texts : V0PayRequest → Option Bytes → Option Bytes → List (Bytes × Option Bytes)
  v0_texts r payer payee =
      (codes "currency", r.receiving_currency_code)
      ∷ (codes "amount", some (format_int r.amount))
      ∷ (codes "payerData", payer)
      ∷ (codes "payeeData", payee)
      ∷ (codes "comment", r.comment)
      ∷ []

  encode-v0 :
      (p : PayRequest) (payer payee : Option Bytes)
      → IsFloat64 lib.float
      → p.uma_major_version ≡ pos 0
      → IsExactInt p.amount
      → IsPlain lib p.amount
      → DataIsKept lib p.payer_data
      → IsTextOf lib (encode_pointer map_json p.payer_data) payer
      → IsTextOf lib (encode_pointer options_json p.requested_payee_data) payee
      → encode_as_url_params lib p ≡ ok (params_of (v0_texts (as_v0 p) payer payee))
  unfolding encode_as_url_params marshal_pay_request decode_struct as_v0
  encode-v0 p payer payee floats version exact plain kept payer_text payee_text = rw version (
      rw
        (to_interface_members-id lib.float (struct_of (v0_fields (as_v0 p))) (
          struct_of-HasStable lib.float (v0_fields (as_v0 p))
            (v0_fields-stable lib floats (as_v0 p) exact kept)))
        (add_params-struct lib (v0_fields (as_v0 p)) (v0_texts (as_v0 p) payer payee) (
          unfold v0_fields in
          ((
            refl,
            text-IsParam lib p.receiving_currency_code,
            (
              refl,
              number-IsParam lib p.amount floats exact plain,
              (
                refl,
                map-IsParam lib p.payer_data payer kept payer_text,
                (
                  refl,
                  options-IsParam lib p.requested_payee_data payee payee_text,
                  (refl, text-IsParam lib p.comment, tt),
                ),
              ),
            ),
          )))))

  -- A pay request of version 0 is read back from its query form with neither an invoice UUID nor the
  -- currency code of the amount, with payer data in which pointers to strings have become strings or
  -- nil, and as one of version 1 when it has no receiving currency code, with all else as it was, if
  -- its receiving currency code and its comment are not empty, its amount is an int64 that a float64
  -- holds exactly and that is written as its digits, float64 keeps the numbers of its payer data, and
  -- the payer data and the options are written as texts that are read back.
  query-v0 :
      (p : PayRequest) (payer payee : Option Bytes)
      → IsFloat64 lib.float
      → p.uma_major_version ≡ pos 0
      → IsInt64 p.amount
      → IsExactInt p.amount
      → IsPlain lib p.amount
      → IsNonempty p.receiving_currency_code
      → IsNonempty p.comment
      → DataIsKept lib p.payer_data
      → IsTextOf lib (encode_pointer map_json p.payer_data) payer
      → IsTextOf lib (encode_pointer options_json p.requested_payee_data) payee
      → (query : Map Bytes) × (encode_as_url_params lib p ≡ ok query)
        × (parse_pay_request_from_query_params lib query
            ≡ ok (record p {
              invoice_uuid = none;
              sending_amount_currency_code = none;
              uma_major_version = v0_version p.receiving_currency_code;
              payer_data = sent_data p.payer_data;
            }))
  unfolding parse_pay_request_from_query_params or_empty eqb as_v0
  query-v0 p payer payee floats version int exact plain currency comment kept payer_text
        payee_text =
      (
        params_of (v0_texts (as_v0 p) payer payee),
        encode-v0 p payer payee floats version exact plain kept payer_text payee_text,
        simp (
          get-params_of (v0_texts (as_v0 p) payer payee),
          or_else-none,
          amount_param-parts (format_int p.amount) (p.amount, none)
              (unfold amount_text in amount_parts-text p.amount none int tt),
          json_param-IsTextOf lib (decode_map lib.float) (encode_pointer map_json p.payer_data)
              payer payer_text,
          decode-map_pointer lib p.payer_data kept,
          json_param-IsTextOf lib decode_options
              (encode_pointer options_json p.requested_payee_data) payee payee_text,
          decode-options_pointer p.requested_payee_data,
          currency_param-v0 p.receiving_currency_code currency,
          text_param-IsNonempty p.comment comment,
        ),
      )
