-- ===== src/Uma/PayResponse/Checked.antt =====
-- What the checks of GetPayReqResponse (uma/uma.go) leave, and that they do not panic.
use uma_go_sdk.Base.{true, ◌≡◌, ◌≢◌, ◌⊎◌, inl, inr, arith, Option, none, some, Bytes, eqb}
use uma_go_sdk.Go.Result.{ok, panic, deref}
use uma_go_sdk.Go.Json.{Float64}
use uma_go_sdk.Go.Json.Safe.{bind-ne-panic, guard-ne-panic, ok-ne-panic}
use uma_go_sdk.Protocol.LnurlpRequest.{is_set}
use uma_go_sdk.Protocol.PayerData.{payer_identifier}
use uma_go_sdk.Protocol.PayRequest.{PayRequest, is_uma_pay_request, is_uma}
use uma_go_sdk.Uma.PayResponse.{
  ResponseTerms, check_sending_currency, nil_count, validate_pay_req_currency_fields,
  validate_uma_pay_req_fields, payment_of,
}

pub deref-ne-panic {ℓ} : {A : Type ℓ} (p : Option A) → is_set p ≡ true → deref p ≢ panic
deref-ne-panic none h = cc
deref-ne-panic (some a) h = λ e. cc

pub sending-ne-panic :
    (sending receiving : Option Bytes)
    → (sending ≡ none) ⊎ (is_set receiving ≡ true)
    → check_sending_currency sending receiving ≢ panic
unfolding check_sending_currency
sending-ne-panic none receiving h = λ e. cc
sending-ne-panic (some s) none (inl h) = cc
sending-ne-panic (some s) none (inr h) = cc
sending-ne-panic (some s) (some r) h = guard-ne-panic (eqb s r) _

-- What the checks of the terms leave.
pub checked_currency :
    (t : ResponseTerms) (code : Bytes)
    → validate_pay_req_currency_fields t ≡ ok tt
    → t.receiving_currency_code ≡ some code
    → (is_set t.conversion_rate ≡ true)
      × (is_set t.receiving_currency_decimals ≡ true)
      × (is_set t.receiver_fees_millisats ≡ true)
unfolding validate_pay_req_currency_fields nil_count
checked_currency t code h e = (ground arith, ground arith, ground arith)

pub checked_uma :
    (t : ResponseTerms)
    → validate_uma_pay_req_fields t ≡ ok tt
    → (is_set t.receiving_vasp_private_key ≡ true) × (is_set t.payee_identifier ≡ true)
unfolding validate_uma_pay_req_fields
checked_uma t h = (ground arith, ground arith)

pub uma_identifier :
    (request : PayRequest)
    → is_uma_pay_request request ≡ true
    → is_set (payer_identifier request.payer_data) ≡ true
unfolding is_uma_pay_request is_uma
uma_identifier request h = ground arith

pub payment-ne-panic :
    (float : Float64) (request : PayRequest) (t : ResponseTerms)
    → validate_pay_req_currency_fields t ≡ ok tt
    → (code : Option Bytes) → t.receiving_currency_code ≡ code
    → payment_of float request t code ≢ panic
unfolding payment_of
payment-ne-panic float request t h none e = λ k. cc
payment-ne-panic float request t h (some code) e =
    let (rate, decimals, fees) = checked_currency t code h e in
    bind-ne-panic (deref t.conversion_rate) _ (deref-ne-panic t.conversion_rate rate) (λ r er.
      bind-ne-panic (deref t.receiving_currency_decimals) _
        (deref-ne-panic t.receiving_currency_decimals decimals)
        (λ d ed.
          bind-ne-panic (deref t.receiver_fees_millisats) _
            (deref-ne-panic t.receiver_fees_millisats fees) (λ f ef. ok-ne-panic _)))

pub fields-ne-panic : (t : ResponseTerms) → validate_uma_pay_req_fields t ≢ panic
unfolding validate_uma_pay_req_fields
fields-ne-panic t = λ e. ground arith
