-- ===== src/Uma/QueryTests.antt =====
-- The query forms of pay requests (uma/protocol/pay_request.go) at concrete inputs.
use uma_go_sdk.Base.{◌≡◌, refl, arith, none, some, Bytes, codes, Lacks}
use uma_go_sdk.Base.Int.{pos}
use uma_go_sdk.Go.Result.{Result, ok}
use uma_go_sdk.Go.Map.{Map}
use uma_go_sdk.Go.Json.{
  Json, Members, JsonLib, number, text, object, string_pointer, no_members, member, marshal,
}
use uma_go_sdk.Go.Json.Decode.{encode_pointer}
use uma_go_sdk.Protocol.PayRequest.{PayRequest}
use uma_go_sdk.Protocol.PayRequest.RoundTrip.{sent_data}
use uma_go_sdk.Protocol.PayRequest.Query.{encode_as_url_params, parse_pay_request_from_query_params}
use uma_go_sdk.Protocol.PayRequest.Query.RoundTrip.{query-v1}
use uma_go_sdk.Uma.ToyJson.{toy_lib}

abbrev payer : Members
payer =
    member (codes "name") (string_pointer (some (codes "Bob")))
      (member (codes "identifier") (text (codes "$bob@vasp1.com")) no_members)

-- Numbers are written as they are; every other document is written as one text.
abbrev write : Json → Result Bytes
write (number s) = ok s
write _ = ok (codes "json")

abbrev lib : JsonLib
lib = record (toy_lib (marshal (object payer))) { write = write }

abbrev request : PayRequest
request = record {
  sending_amount_currency_code = some (codes "EUR");
  receiving_currency_code = some (codes "USD");
  amount = pos 1234;
  payer_data = some payer;
  requested_payee_data = none;
  comment = some (codes "hi");
  invoice_uuid = some (codes "7");
  uma_major_version = pos 1;
}

no_dot : Lacks b'.' (codes "EUR")
no_dot = ground arith

query-v1_example :
    (query : Map Bytes) × (encode_as_url_params lib request ≡ ok query)
    × (parse_pay_request_from_query_params lib query
        ≡ ok (record request {
          invoice_uuid = none;
          uma_major_version = pos 1;
          payer_data = sent_data (some payer);
        }))
unfolding marshal encode_pointer
query-v1_example =
    query-v1 lib request (some (codes "json")) none refl (omega arith, omega arith)
      (no_dot, λ e. cc) (λ e. cc) (λ e. cc) (tt, (tt, tt)) (refl, (λ e. cc), refl) tt
