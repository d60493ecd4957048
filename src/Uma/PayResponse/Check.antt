-- ===== src/Uma/PayResponse/Check.antt =====
-- VerifyPayReqResponseSignature of uma/uma.go.
use uma_go_sdk.Base.{Option, none, some, Bytes, if◌then◌else◌}
use uma_go_sdk.Base.Int.{pos, eqb_ℤ}
use uma_go_sdk.Go.Result.{
  Result, ok, err, panic, ◌>>=◌, deref, missing_compliance_data, v0_response_unsigned,
}
use uma_go_sdk.Go.Time.{unix}
use uma_go_sdk.Crypto.{Crypto}
use uma_go_sdk.NonceCache.Interface.{NonceCache}
use uma_go_sdk.Protocol.PubKeyResponse.{PubKeyResponse}
use uma_go_sdk.Protocol.PayeeData.{CompliancePayeeData, payee_compliance, payee_payload}
use uma_go_sdk.Protocol.PayReqResponse.{PayReqResponse}
use uma_go_sdk.Uma.Signing.{verify_signature}
use uma_go_sdk.Uma.Verify.{with_nonce}

module _ (crypto : Crypto) where
  -- The check when the compliance data are read.
  unfoldable pub verify_payee_compliance :
      {S : Type 0} ⦃N : NonceCache S⦄
      → PayReqResponse
      → PubKeyResponse
      → S
      → Bytes
      → Bytes
      → Result (Option CompliancePayeeData)
      → Result (Unit {0}) × S
  unfolding with_nonce
  verify_payee_compliance response other_vasp cache payer payee (ok (some c)) =
      if eqb_ℤ response.uma_major_version (pos 0)
      then (err v0_response_unsigned, cache)
      else elim c.signature_nonce [
        | none ↦ (panic, cache)
        | some nonce ↦ elim c.signature_timestamp [
          | none ↦ (panic, cache)
          | some timestamp ↦ with_nonce cache nonce (unix timestamp) (do
            payload ← payee_payload (some c) payer payee
            signature ← deref c.signature
            verify_signature crypto payload signature other_vasp)
        ]
      ]
  verify_payee_compliance response other_vasp cache payer payee (ok none) =
      (err missing_compliance_data, cache)
  verify_payee_compliance response other_vasp cache payer payee (err e) = (err e, cache)
  verify_payee_compliance response other_vasp cache payer payee panic = (panic, cache)

  unfoldable pub verify_pay_req_response_signature :
      {S : Type 0} ⦃N : NonceCache S⦄
      → PayReqResponse
      → PubKeyResponse
      → S
      → Bytes
      → Bytes
      → Result (Unit {0}) × S
  unfolding verify_payee_compliance
  verify_pay_req_response_signature response other_vasp cache payer payee =
      verify_payee_compliance response other_vasp cache payer payee
        (payee_compliance response.payee_data)
