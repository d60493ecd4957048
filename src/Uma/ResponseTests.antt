-- ===== src/Uma/ResponseTests.antt =====
-- The answer to a pay request (uma/uma.go) at concrete inputs.
use uma_go_sdk.NonceCache.{in_memory}
use uma_go_sdk.Base.{◌≡◌, refl, arith, true, none, some, codes, eqb}
use uma_go_sdk.Base.Int.{pos, wrap_int, ◌-ℤ◌}
use uma_go_sdk.Go.Result.{ok, ◌>>=◌}
use uma_go_sdk.Go.Json.{text, object, no_members, member, get_member, marshal}
use uma_go_sdk.Go.Json.Decode.{decode_text, decode_texts, decode_int, decode_pointer}
use uma_go_sdk.Protocol.PayerData.{
  payer_identifier, payer_compliance, compliance_of, string_field, unmarshal_payer,
}
use uma_go_sdk.Protocol.PayRequest.{PayRequest, zero_pay_request, is_uma_pay_request}
use uma_go_sdk.Protocol.PayReqResponse.{PayReqResponse}
use uma_go_sdk.Protocol.PayReqResponse.Json.{marshal_payreq_response, unmarshal_payreq_response}
use uma_go_sdk.Uma.PayResponse.{
  check_sending_currency, payer_data_text, msats_amount, receiving_amount, get_pay_req_response,
}
use uma_go_sdk.Uma.PayResponse.Check.{verify_pay_req_response_signature}
use uma_go_sdk.Uma.PayResponse.Verified.{pay_req_response_verified}
use uma_go_sdk.Uma.PayResponse.Metadata.{optional_invoice_uuid}
use uma_go_sdk.Uma.Toy.{
  toy, toy-IsKeyPair, toy-IsSigner, key, random_bytes, vasp, vasp-key, now, cache, unseen, young,
}
use uma_go_sdk.Uma.ToyJson.{toy_float, toy-IsFloat64}
use uma_go_sdk.Uma.MessageTests.{lib, answer_terms, create_invoice, now-exact}

-- A request as a receiver has it, with payer data that have an identifier and compliance data.
abbrev request : PayRequest
request = record zero_pay_request {
  amount = pos 6800000;
  payer_data = some (
      member (codes "identifier") (text (codes "$alice@vasp1.com"))
        (member (codes "compliance") (object no_members) no_members));
  uma_major_version = pos 1;
}

request-is_uma : is_uma_pay_request request ≡ true
unfolding is_uma_pay_request payer_compliance compliance_of payer_identifier string_field get_member
    eqb marshal decode_text decode_texts decode_int decode_pointer unmarshal_payer
request-is_uma = refl

request-payer : payer_identifier request.payer_data ≡ some (codes "$alice@vasp1.com")
unfolding payer_identifier string_field get_member eqb
request-payer = refl

request-accepted :
    check_sending_currency request.sending_amount_currency_code (some (codes "USD")) ≡ ok tt
unfolding check_sending_currency
request-accepted = refl

request-written : payer_data_text lib request.payer_data ≡ ok (codes "json")
unfolding payer_data_text
request-written = refl

metadata-kept : optional_invoice_uuid lib (codes "[]") none ≡ ok (codes "[]")
unfolding optional_invoice_uuid
metadata-kept = refl

converted : receiving_amount toy_float request answer_terms ≡ some (pos 199)
unfolding receiving_amount msats_amount wrap_int ◌-ℤ◌
converted = refl

pay_req_response_verified_example :
    (p : PayReqResponse) × (q : PayReqResponse) × (get_pay_req_response toy lib create_invoice
        (ok 2301)
        random_bytes
        now
        request
        answer_terms
      ≡ ok p)
    × ((marshal_payreq_response toy_float p >>= unmarshal_payreq_response lib) ≡ ok q)
    × (q.encoded_invoice ≡ codes "lnbc1")
    × (q.payment_info
        ≡ some (record {
          amount = receiving_amount toy_float request answer_terms;
          currency_code = codes "USD";
          multiplier = 68000;
          decimals = pos 2;
          exchange_fees_millisatoshi = pos 7;
        }))
    × ((verify_pay_req_response_signature toy q vasp cache
          (codes "$alice@vasp1.com")
          (codes "$bob@vasp2.com")).0
        ≡ ok tt)
pay_req_response_verified_example =
    pay_req_response_verified toy key key (toy-IsKeyPair key) vasp vasp-key lib toy-IsFloat64 2301
      random_bytes now request answer_terms (codes "USD") (pos 2) 68000 (pos 7)
      (codes "$alice@vasp1.com") (codes "$bob@vasp2.com")
      (record {
        has_code = refl;
        has_decimals = refl;
        has_rate = refl;
        has_fees = refl;
        has_payee = refl;
        has_key = refl;
        has_source = refl;
      })
      create_invoice (codes "[]") (codes "json") (codes "lnbc1") _ cache
      (toy-IsSigner random_bytes key) request-accepted request-is_uma refl request-payer tt
      request-written metadata-kept refl
      (record {
        printed = refl;
        amount = rw converted ((omega arith, omega arith), (omega arith, omega arith));
        decimals = ((omega arith, omega arith), (omega arith, omega arith));
        fees = ((omega arith, omega arith), (omega arith, omega arith));
      })
      now-exact unseen young
