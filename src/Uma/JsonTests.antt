-- ===== src/Uma/JsonTests.antt =====
-- JSON forms of uma/protocol at concrete inputs.
use uma_go_sdk.Base.{◌≡◌, refl, arith, false, none, some, [], ◌∷◌, Bytes, codes, eqb, Lacks}
use uma_go_sdk.Base.Int.{pos}
use uma_go_sdk.Go.Result.{ok, ◌>>=◌}
use uma_go_sdk.Go.Json.{
  Members, JsonLib, null, text, object, string_pointer, no_members, member, set_member, marshal,
  marshal_members, get_member,
}
use uma_go_sdk.Go.Json.Decode.{decode_pointer, decode_text, decode_texts, decode_int}
use uma_go_sdk.Utils.Certs.RoundTrip.{pem_chain}
use uma_go_sdk.Protocol.Currency.{Currency}
use uma_go_sdk.Protocol.Currency.Json.{marshal_currency, unmarshal_currency}
use uma_go_sdk.Protocol.Currency.Json.RoundTrip.{currency-unmarshal-marshal}
use uma_go_sdk.Protocol.PubKeyResponse.{PubKeyResponse}
use uma_go_sdk.Protocol.PubKeyResponse.Json.{marshal_pub_key_response, unmarshal_pub_key_response}
use uma_go_sdk.Protocol.PubKeyResponse.Json.RoundTrip.{pub_key_response-unmarshal-marshal}
use uma_go_sdk.Protocol.PayRequest.{
  PayRequest, zero_pay_request, marshal_pay_request, unmarshal_pay_request,
}
use uma_go_sdk.Protocol.PayRequest.RoundTrip.{sent_data, v1-unmarshal-marshal}
use uma_go_sdk.Protocol.PayeeData.{
  CompliancePayeeData, payee_compliance, payee_compliance_of, unmarshal_payee,
}
use uma_go_sdk.Protocol.PayReqResponse.{PayReqResponsePaymentInfo, PayReqResponse}
use uma_go_sdk.Protocol.PayReqResponse.Json.{marshal_payreq_response, unmarshal_payreq_response}
use uma_go_sdk.Protocol.PayReqResponse.RoundTrip.{response-unmarshal-marshal}
use uma_go_sdk.Protocol.PayReqResponse.RoundTrip.VersionZero.{v0_response-unmarshal-marshal}
use uma_go_sdk.Uma.Toy.{toy, toy-IsPem}
use uma_go_sdk.Uma.ToyJson.{toy_lib, toy_float, toy-IsFloat64}

abbrev lib : JsonLib
lib = toy_lib null

abbrev payer : Members
payer =
    member (codes "name") (string_pointer (some (codes "Alice")))
      (member (codes "identifier") (text (codes "$alice@vasp1.com")) no_members)

abbrev request_v1 : PayRequest
request_v1 = record {
  sending_amount_currency_code = some (codes "USD");
  receiving_currency_code = some (codes "USD");
  amount = pos 1234;
  payer_data = some payer;
  requested_payee_data = none;
  comment = none;
  invoice_uuid = some (codes "7");
  uma_major_version = pos 1;
}

no_dot : Lacks b'.' (codes "USD")
no_dot = ground arith

v1-unmarshal-marshal_example :
    unmarshal_pay_request lib zero_pay_request (marshal_pay_request request_v1)
    ≡ ok (record request_v1 {
      invoice_uuid = none;
      uma_major_version = pos 1;
      payer_data = sent_data (some payer);
    })
unfolding marshal
v1-unmarshal-marshal_example =
    v1-unmarshal-marshal lib request_v1 refl (omega arith, omega arith) (no_dot, λ e. cc)
      (tt, (tt, tt))

abbrev currency : Currency
currency = record {
  code = codes "USD";
  name = codes "US Dollars";
  symbol = codes "$";
  millisatoshi_per_unit = 68000;
  convertible = record { min_sendable = pos 1; max_sendable = pos 1000000 };
  decimals = pos 2;
  uma_major_version = pos 1;
}

currency-unmarshal-marshal_example :
    (marshal_currency toy_float currency >>= unmarshal_currency toy_float)
    ≡ ok (record currency { uma_major_version = pos 1 })
currency-unmarshal-marshal_example =
    currency-unmarshal-marshal toy_float toy-IsFloat64 currency _ refl (record {
      min = ((omega arith, omega arith), (omega arith, omega arith));
      max = ((omega arith, omega arith), (omega arith, omega arith));
      decimals = ((omega arith, omega arith), (omega arith, omega arith));
    })

abbrev chain : Bytes
chain = pem_chain toy ((1 ∷ 2 ∷ []) ∷ (3 ∷ []) ∷ [])

abbrev keys : PubKeyResponse
keys = record {
  signing_cert_chain = some chain;
  encryption_cert_chain = none;
  signing_pub_key_hex = some (codes "ab");
  encryption_pub_key_hex = none;
  expiration_timestamp = some (pos 99);
}

pub_key_response-unmarshal-marshal_example :
    (marshal_pub_key_response toy keys >>= unmarshal_pub_key_response toy) ≡ ok keys
pub_key_response-unmarshal-marshal_example =
    pub_key_response-unmarshal-marshal toy toy-IsPem keys
      (1 ∷ 2 ∷ [], (3 ∷ []) ∷ [], ((omega arith, (omega arith, tt)), ((omega arith, tt), tt)), refl)
      tt (omega arith, omega arith)

abbrev payment : PayReqResponsePaymentInfo
payment = record {
  amount = some (pos 100);
  currency_code = codes "USD";
  multiplier = 68000;
  decimals = pos 2;
  exchange_fees_millisatoshi = pos 7;
}

abbrev compliance : CompliancePayeeData
compliance = record {
  node_pub_key = some (codes "02");
  utxos = none;
  utxo_callback = none;
  signature = none;
  signature_nonce = none;
  signature_timestamp = none;
}

abbrev payee : Members
payee = member (codes "identifier") (text (codes "$bob@vasp2.com")) (
    member (codes "compliance")
      (object (member (codes "nodePubKey") (text (codes "02")) no_members)) no_members)

abbrev response_v1 : PayReqResponse
response_v1 = record {
  encoded_invoice = codes "lnbc1";
  routes = some (record { pubkey = codes "02"; path = none } ∷ []);
  payment_info = some payment;
  payee_data = some payee;
  disposable = some false;
  success_action = some ((codes "tag", codes "message") ∷ []);
  uma_major_version = pos 1;
}

abbrev response_v0 : PayReqResponse
response_v0 = record response_v1 { uma_major_version = pos 0 }

response-unmarshal-marshal_example :
    (marshal_payreq_response toy_float response_v1 >>= unmarshal_payreq_response lib)
    ≡ ok (record response_v1 { payee_data = sent_data (some payee) })
unfolding marshal
response-unmarshal-marshal_example =
    response-unmarshal-marshal lib toy-IsFloat64 response_v1
      (record {
        routes = (tt, tt);
        payment = (
          _,
          record {
            printed = refl;
            amount = ((omega arith, omega arith), (omega arith, omega arith));
            decimals = ((omega arith, omega arith), (omega arith, omega arith));
            fees = ((omega arith, omega arith), (omega arith, omega arith));
          },
        );
        payee = (tt, ((tt, tt), tt));
      })
      refl

payee-compliance : payee_compliance (some payee) ≡ ok (some compliance)
unfolding payee_compliance payee_compliance_of unmarshal_payee marshal get_member eqb decode_pointer
    decode_text decode_texts decode_int
payee-compliance = refl

v0_response-unmarshal-marshal_example :
    (ms : Members) × ((marshal_payreq_response toy_float response_v0
        >>= unmarshal_payreq_response lib)
      ≡ ok (record response_v0 {
        payment_info = some (record payment { amount = none });
        payee_data = some (set_member (codes "compliance") (object ms) (marshal_members payee));
      }))
    × (payee_compliance_of (some (object ms)) ≡ ok (some compliance))
unfolding marshal
v0_response-unmarshal-marshal_example =
    v0_response-unmarshal-marshal lib toy-IsFloat64 response_v0 payment _
      (record {
        printed = refl;
        amount = ((omega arith, omega arith), (omega arith, omega arith));
        decimals = ((omega arith, omega arith), (omega arith, omega arith));
        fees = ((omega arith, omega arith), (omega arith, omega arith));
      })
      (tt, tt) payee refl (tt, ((tt, tt), tt)) compliance tt refl refl payee-compliance
