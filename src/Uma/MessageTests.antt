-- ===== src/Uma/MessageTests.antt =====
-- The messages of a payment (uma/uma.go) at concrete inputs.
use uma_go_sdk.NonceCache.{in_memory}
use uma_go_sdk.Base.{◌≡◌, refl, arith, true, Option, none, some, [], ◌∷◌, Bytes, codes, Lacks}
use uma_go_sdk.Base.Int.{ℤ, pos, wrap_int, ◌+ℤ◌, ◌-ℤ◌}
use uma_go_sdk.Go.Result.{Result, ok, ◌>>=◌}
use uma_go_sdk.Go.Hex.{encode_to_string}
use uma_go_sdk.Protocol.PayerData.RoundTrip.{RuleIsWritable}
use uma_go_sdk.Go.Time.{unix_seconds}
use uma_go_sdk.Go.Json.{JsonLib, text}
use uma_go_sdk.Go.Json.Laws.{IsExactInt}
use uma_go_sdk.Protocol.KycStatus.{verified}
use uma_go_sdk.Protocol.PayerData.{payer_identifier}
use uma_go_sdk.Protocol.PayRequest.{
  PayRequest, zero_pay_request, marshal_pay_request, unmarshal_pay_request, is_uma_pay_request,
}
use uma_go_sdk.Protocol.PayReqResponse.{PayReqResponse}
use uma_go_sdk.Protocol.PayReqResponse.Json.{marshal_payreq_response, unmarshal_payreq_response}
use uma_go_sdk.Uma.PayRequest.{
  PayTerms, encrypt_optional, encrypt_tr_info, get_uma_pay_request_with_invoice,
  verify_pay_req_signature,
}
use uma_go_sdk.Uma.PayRequest.Verified.{pay_request_verified}
use uma_go_sdk.Uma.PayResponse.{ResponseTerms, get_pay_req_response}
use uma_go_sdk.Uma.PayResponse.Check.{verify_pay_req_response_signature}
use uma_go_sdk.Go.Strconv.{format_int}
use uma_go_sdk.Uma.PayResponse.Given.{HasTerms}
use uma_go_sdk.Uma.Exchange.{IsPayable, Party, agreed, exchange_agreed}
use uma_go_sdk.Protocol.PayReqResponse.RoundTrip.{PaymentIsKept}
use uma_go_sdk.Uma.Toy.{
  toy, toy-IsKeyPair, toy-IsSigner, key, random_bytes, vasp, vasp-key, now, cache, unseen, young,
}
use uma_go_sdk.Uma.ToyJson.{toy_lib, toy_float, toy-IsFloat64}

abbrev pub lib : JsonLib
lib = toy_lib (text (codes "ivms@101.1"))

abbrev pub terms : PayTerms
terms = record {
  amount = pos 100;
  receiver_encryption_pub_key = codes "k";
  sending_vasp_private_key = key;
  receiving_currency_code = codes "USD";
  is_amount_in_receiving_currency = true;
  payer_identifier = codes "$alice@vasp1.com";
  uma_major_version = pos 1;
  payer_name = some (codes "Alice");
  payer_email = none;
  tr_info = some (codes "secret");
  tr_info_format = some (record { format_type = codes "ivms"; version = some (codes "101.1") });
  payer_kyc_status = verified;
  payer_utxos = some [];
  payer_node_pub_key = none;
  utxo_callback = codes "/callback";
  requested_payee_data = none;
  comment = none;
  invoice_uuid = some (codes "7");
}

pub no_dot : Lacks b'.' (codes "USD")
no_dot = ground arith

pub rule_written : RuleIsWritable lib terms.tr_info_format
rule_written = (codes "101.1", refl, ground arith, ground arith, refl)

pub info_encrypted :
    encrypt_optional toy random_bytes terms.tr_info terms.receiver_encryption_pub_key
    ≡ ok (some (encode_to_string (codes "secret")))
unfolding encrypt_optional encrypt_tr_info
info_encrypted = refl

pub now-exact : IsExactInt (unix_seconds now)
unfolding unix_seconds wrap_int ◌+ℤ◌ ◌-ℤ◌
now-exact = (omega arith, omega arith)

pay_request_verified_example :
    (p : PayRequest) × (q : PayRequest) × (get_uma_pay_request_with_invoice toy lib
        (ok 2301)
        random_bytes
        random_bytes
        now
        terms
      ≡ ok p)
    × (unmarshal_pay_request lib zero_pay_request (marshal_pay_request p) ≡ ok q)
    × (q.amount ≡ pos 100)
    × (q.receiving_currency_code ≡ some (codes "USD"))
    × (q.sending_amount_currency_code ≡ some (codes "USD"))
    × (q.uma_major_version ≡ pos 1)
    × (q.invoice_uuid ≡ none)
    × (is_uma_pay_request q ≡ true)
    × (payer_identifier q.payer_data ≡ some (codes "$alice@vasp1.com"))
    × ((verify_pay_req_signature toy q vasp cache).0 ≡ ok tt)
pay_request_verified_example =
    pay_request_verified toy key key (toy-IsKeyPair key) vasp vasp-key lib toy-IsFloat64 2301
      random_bytes random_bytes now terms cache (some (encode_to_string (codes "secret")))
      (toy-IsSigner random_bytes key) refl info_encrypted refl (λ e. cc) (λ e. cc) refl rule_written
      (no_dot, λ e. cc) (omega arith, omega arith) now-exact unseen young

abbrev pub answer_terms : ResponseTerms
answer_terms = record {
  metadata = codes "[]";
  receiving_currency_code = some (codes "USD");
  receiving_currency_decimals = some (pos 2);
  conversion_rate = some 68000;
  receiver_fees_millisats = some (pos 7);
  receiver_channel_utxos = some (codes "abcd" ∷ []);
  receiver_node_pub_key = none;
  utxo_callback = some (codes "/callback");
  payee_data = none;
  receiving_vasp_private_key = some key;
  payee_identifier = some (codes "$bob@vasp2.com");
  disposable = none;
  success_action = none;
}

abbrev pub create_invoice : ℤ → Bytes → Option Bytes → Result (Option Bytes)
create_invoice amount metadata receiver = ok (some (codes "lnbc1"))

pub terms-IsPayable : IsPayable lib terms key
terms-IsPayable = record {
  own_key = refl;
  version = refl;
  identifier = λ e. cc;
  options = λ e. cc;
  status = refl;
  rule = rule_written;
  code = (no_dot, λ e. cc);
  amount = ((omega arith, omega arith), (omega arith, omega arith));
  receiving = refl;
}

pub answer_terms-HasTerms :
    HasTerms answer_terms (codes "USD") (pos 2) 68000 (pos 7) (codes "$bob@vasp2.com") key
answer_terms-HasTerms = record {
  has_code = refl;
  has_decimals = refl;
  has_rate = refl;
  has_fees = refl;
  has_payee = refl;
  has_key = refl;
  has_source = refl;
}

pub agreed-PaymentIsKept :
    PaymentIsKept toy_float (agreed terms 68000 (pos 2) (pos 7)) (format_int (pos 34000))
agreed-PaymentIsKept = record {
  printed = refl;
  amount = ((omega arith, omega arith), (omega arith, omega arith));
  decimals = ((omega arith, omega arith), (omega arith, omega arith));
  fees = ((omega arith, omega arith), (omega arith, omega arith));
}

abbrev pub party : Party toy
party = record {
  private_key = key;
  public_key = key;
  pair = toy-IsKeyPair key;
  keys = vasp;
  has_key = vasp-key;
  nonce = 2301;
  random = random_bytes;
  signs = toy-IsSigner random_bytes key;
  now = now;
  exact = now-exact;
}

exchange_agreed_example :
    (p : PayRequest) × (q : PayRequest) × (a : PayReqResponse) × (b : PayReqResponse)
    × (get_uma_pay_request_with_invoice toy lib (ok 2301) random_bytes random_bytes now terms
        ≡ ok p)
    × (unmarshal_pay_request lib zero_pay_request (marshal_pay_request p) ≡ ok q)
    × ((verify_pay_req_signature toy q vasp cache).0 ≡ ok tt)
    × (get_pay_req_response toy lib create_invoice (ok 2301) random_bytes now q answer_terms ≡ ok a)
    × ((marshal_payreq_response toy_float a >>= unmarshal_payreq_response lib) ≡ ok b)
    × ((verify_pay_req_response_signature toy b vasp cache
          (codes "$alice@vasp1.com")
          (codes "$bob@vasp2.com")).0
        ≡ ok tt)
    × (b.payment_info ≡ some (agreed terms 68000 (pos 2) (pos 7)))
exchange_agreed_example =
    exchange_agreed toy lib toy-IsFloat64 (λ v. (codes "json", refl)) party party cache cache terms
      random_bytes (some (encode_to_string (codes "secret"))) answer_terms (pos 2) 68000 (pos 7)
      (codes "$bob@vasp2.com") _ create_invoice terms-IsPayable info_encrypted
      (record { fresh = unseen; young = young }) answer_terms-HasTerms tt agreed-PaymentIsKept
      (λ amount metadata receiver. (codes "lnbc1", refl)) (record { fresh = unseen; young = young })
