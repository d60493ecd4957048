-- ===== src/Uma/SignedMessage.antt =====
-- The five kinds of signed messages of uma/uma.go, and what all their checks have in common.
use uma_go_sdk.Base.{ap, ◌≡◌, ◌≢◌, refl, Bytes, Bool, true, false, Option, none, some}
use uma_go_sdk.Base.Int.{ℤ, pos, eqb_ℤ}
use uma_go_sdk.Go.Result.{Result, ok, err, panic, ◌>>=◌, deref}
use uma_go_sdk.Go.Time.{Time, unix}
use uma_go_sdk.Crypto.{Crypto}
use uma_go_sdk.NonceCache.{in_memory}
use uma_go_sdk.NonceCache.Interface.{NonceCache}
use uma_go_sdk.Protocol.PubKeyResponse.{PubKeyResponse}
use uma_go_sdk.Protocol.LnurlpRequest.{UmaLnurlpRequest}
use uma_go_sdk.Protocol.LnurlpResponse.{UmaLnurlpResponse}
use uma_go_sdk.Protocol.PayerData.{CompliancePayerData, payer_compliance}
use uma_go_sdk.Protocol.PayeeData.{CompliancePayeeData, payee_compliance}
use uma_go_sdk.Protocol.PayRequest.{PayRequest}
use uma_go_sdk.Protocol.PayReqResponse.{PayReqResponse}
use uma_go_sdk.Protocol.PostTransactionCallback.{PostTransactionCallback}
use uma_go_sdk.Uma.PayRequest.{verify_compliance, verify_pay_req_signature}
use uma_go_sdk.Uma.PayResponse.Check.{verify_payee_compliance, verify_pay_req_response_signature}
use uma_go_sdk.Uma.Verify.{
  with_nonce, verify_uma_lnurlp_query_signature, verify_uma_lnurlp_response_signature,
  verify_callback, verify_post_transaction_callback_signature,
}
use uma_go_sdk.Go.Result.{missing_compliance_data}
use uma_go_sdk.Protocol.LnurlpRequest.{signable_payload}
use uma_go_sdk.Protocol.LnurlpResponse.{response_payload}
use uma_go_sdk.Protocol.PayRequest.{pay_request_payload}
use uma_go_sdk.Protocol.PayeeData.{payee_payload}
use uma_go_sdk.Protocol.PostTransactionCallback.{callback_payload}
use uma_go_sdk.Uma.Signing.{verify_signature}

-- The messages whose signatures are checked, and what else their checks take.
pub data SignedMessage : Type 0 where
  query : UmaLnurlpRequest → SignedMessage
  answer : UmaLnurlpResponse → SignedMessage
  pay_request : PayRequest → SignedMessage
  pay_response : PayReqResponse → Bytes → Bytes → SignedMessage
  callback : PostTransactionCallback → SignedMessage

abbrev payer_nonce : Result (Option CompliancePayerData) → Option (Bytes × Time)
payer_nonce (ok (some c)) = some (c.signature_nonce, unix c.signature_timestamp)
payer_nonce _ = none

abbrev payee_nonce : CompliancePayeeData → Option (Bytes × Time)
payee_nonce c = elim c.signature_nonce [
  | none ↦ none
  | some nonce ↦ elim c.signature_timestamp [ none ↦ none | some t ↦ some (nonce, unix t) ]
]

abbrev response_nonce : Bool → Result (Option CompliancePayeeData) → Option (Bytes × Time)
response_nonce false (ok (some c)) = payee_nonce c
response_nonce _ _ = none

abbrev callback_nonce : Option Bytes → Option Bytes → Option ℤ → Option (Bytes × Time)
callback_nonce (some signature) (some nonce) (some t) = some (nonce, unix t)
callback_nonce _ _ _ = none

abbrev payer_signature : Result (Option CompliancePayerData) → Option Bytes
payer_signature (ok (some c)) = some c.signature
payer_signature _ = none

abbrev payee_part : Result (Option CompliancePayeeData) → Bytes → Bytes → Result Bytes
payee_part (ok (some c)) payer payee = payee_payload (some c) payer payee
payee_part _ payer payee = err missing_compliance_data

abbrev payee_signature : Result (Option CompliancePayeeData) → Option Bytes
payee_signature (ok (some c)) = c.signature
payee_signature _ = none

-- The text that the signature of a message is over, and the signature.
abbrev pub payload_of : SignedMessage → Result Bytes
payload_of (query q) = signable_payload q.lnurlp_request
payload_of (answer a) = ok (response_payload a)
payload_of (pay_request p) = pay_request_payload p
payload_of (pay_response r payer payee) = payee_part (payee_compliance r.payee_data) payer payee
payload_of (callback c) = callback_payload c

abbrev pub signature_of : SignedMessage → Option Bytes
signature_of (query q) = some q.signature
signature_of (answer a) = some a.compliance.signature
signature_of (pay_request p) = payer_signature (payer_compliance p.payer_data)
signature_of (pay_response r payer payee) = payee_signature (payee_compliance r.payee_data)
signature_of (callback c) = c.signature

-- The nonce and the moment of a message, when it has what a check takes before the nonce.
abbrev pub nonce_of : SignedMessage → Option (Bytes × Time)
nonce_of (query q) = some (q.nonce, q.timestamp)
nonce_of (answer a) = some (a.compliance.nonce, unix a.compliance.timestamp)
nonce_of (pay_request p) = payer_nonce (payer_compliance p.payer_data)
nonce_of (pay_response r payer payee) =
    response_nonce (eqb_ℤ r.uma_major_version (pos 0)) (payee_compliance r.payee_data)
nonce_of (callback c) = callback_nonce c.signature c.nonce c.timestamp

module _ (crypto : Crypto) {S : Type 0} ⦃N : NonceCache S⦄ where
  -- The check of a message of any kind.
  unfoldable pub verify_message : SignedMessage → PubKeyResponse → S → Result (Unit {0}) × S
  verify_message (query q) vasp cache = verify_uma_lnurlp_query_signature crypto q vasp cache
  verify_message (answer a) vasp cache = verify_uma_lnurlp_response_signature crypto a vasp cache
  verify_message (pay_request p) vasp cache = verify_pay_req_signature crypto p vasp cache
  verify_message (pay_response r payer payee) vasp cache =
      verify_pay_req_response_signature crypto r vasp cache payer payee
  verify_message (callback c) vasp cache =
      verify_post_transaction_callback_signature crypto c vasp cache

module _ (crypto : Crypto) (S : Type 0) ⦃N : NonceCache S⦄ where
  -- The check of a signature over a payload.
  abbrev pub signed_by : PubKeyResponse → Result Bytes → Option Bytes → Result (Unit {0})
  signed_by vasp payload signature =
      payload >>= λ p. deref signature >>= λ s. verify_signature crypto p s vasp

  -- A check that saves this nonce and this moment and then checks the rest, or accepts nothing where
  -- there are none.
  abbrev pub IsChecked :
      (S → Result (Unit {0}) × S) → Option (Bytes × Time) → Result (Unit {0}) → Type 0
  IsChecked f none rest = (c : S) → (f c).0 ≢ ok tt
  IsChecked f (some (k, t)) rest = (c : S) → f c ≡ with_nonce c k t rest

  compliance-IsChecked :
      (p : PayRequest) (vasp : PubKeyResponse) (r : Result (Option CompliancePayerData))
      → IsChecked
          (λ c. verify_compliance crypto p vasp c r)
          (payer_nonce r)
          (signed_by vasp (pay_request_payload p) (payer_signature r))
  unfolding verify_compliance
  compliance-IsChecked p vasp (ok (some d)) = λ c. refl
  compliance-IsChecked p vasp (ok none) = λ c h. cc
  compliance-IsChecked p vasp (err problem) = λ c h. cc
  compliance-IsChecked p vasp panic = λ c h. cc

  payee_parts-IsChecked :
      (p : PayReqResponse) (vasp : PubKeyResponse) (payer payee : Bytes) (d : CompliancePayeeData)
      (nonce : Option Bytes) (t : Option ℤ) (rest : Result (Unit {0}))
      → eqb_ℤ p.uma_major_version (pos 0) ≡ false
      → d.signature_nonce ≡ nonce
      → d.signature_timestamp ≡ t
      → signed_by vasp (payee_payload (some d) payer payee) d.signature ≡ rest
      → IsChecked
          (λ c. verify_payee_compliance crypto p vasp c payer payee (ok (some d)))
          (payee_nonce d)
          rest
  unfolding verify_payee_compliance
  payee_parts-IsChecked p vasp payer payee d none t rest e en et er = rw (e, en) (λ c h. cc)
  payee_parts-IsChecked p vasp payer payee d (some nonce) none rest e en et er =
      rw (e, en, et) (λ c h. cc)
  payee_parts-IsChecked p vasp payer payee d (some nonce) (some t) rest e en et er =
      rw (e, en, et) (λ c. ap (with_nonce c nonce (unix t)) er)

  payee-IsChecked :
      (p : PayReqResponse) (vasp : PubKeyResponse) (payer payee : Bytes)
      (r : Result (Option CompliancePayeeData)) (is_v0 : Bool)
      → eqb_ℤ p.uma_major_version (pos 0) ≡ is_v0
      → IsChecked
          (λ c. verify_payee_compliance crypto p vasp c payer payee r)
          (response_nonce is_v0 r)
          (signed_by vasp (payee_part r payer payee) (payee_signature r))
  unfolding verify_payee_compliance
  payee-IsChecked p vasp payer payee (ok (some d)) true e = λ c h. let e' = rw e at h in cc
  payee-IsChecked p vasp payer payee (ok (some d)) false e =
      payee_parts-IsChecked p vasp payer payee d d.signature_nonce d.signature_timestamp _ e refl
        refl refl
  payee-IsChecked p vasp payer payee (ok none) true e = λ c h. cc
  payee-IsChecked p vasp payer payee (ok none) false e = λ c h. cc
  payee-IsChecked p vasp payer payee (err problem) true e = λ c h. cc
  payee-IsChecked p vasp payer payee (err problem) false e = λ c h. cc
  payee-IsChecked p vasp payer payee panic true e = λ c h. cc
  payee-IsChecked p vasp payer payee panic false e = λ c h. cc

  callback-IsChecked :
      (p : PostTransactionCallback) (vasp : PubKeyResponse) (s n : Option Bytes) (t : Option ℤ)
      → IsChecked
          (λ c. verify_callback crypto p vasp c s n t)
          (callback_nonce s n t)
          (signed_by vasp (callback_payload p) s)
  unfolding verify_callback
  callback-IsChecked p vasp (some s) (some n) (some t) = λ c. refl
  callback-IsChecked p vasp none n t = λ c h. cc
  callback-IsChecked p vasp (some s) none t = λ c h. cc
  callback-IsChecked p vasp (some s) (some n) none = λ c h. cc

  -- Every check saves the nonce of its message, and checks the signature over its payload.
  pub message-IsChecked :
      (m : SignedMessage) (vasp : PubKeyResponse)
      → IsChecked
          (verify_message crypto m vasp)
          (nonce_of m)
          (signed_by vasp (payload_of m) (signature_of m))
  unfolding verify_message verify_uma_lnurlp_query_signature verify_uma_lnurlp_response_signature
      verify_pay_req_signature verify_pay_req_response_signature
      verify_post_transaction_callback_signature
  message-IsChecked (query q) vasp = λ c. refl
  message-IsChecked (answer a) vasp = λ c. refl
  message-IsChecked (pay_request p) vasp =
      compliance-IsChecked p vasp (payer_compliance p.payer_data)
  message-IsChecked (pay_response p payer payee) vasp =
      payee-IsChecked p vasp payer payee (payee_compliance p.payee_data) _ refl
  message-IsChecked (callback c) vasp = callback-IsChecked c vasp c.signature c.nonce c.timestamp
