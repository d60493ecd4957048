-- ===== src/Uma/Verify.antt =====
-- The checks of signed messages in uma/uma.go, and the signed callback. A check returns its result and
-- the nonce cache, which it may have changed.
pub mod Callback
use uma_go_sdk.Base.{ℕ, Bool, Option, none, some, List, [], ◌∷◌, Bytes}
use uma_go_sdk.Base.Int.{ℤ}
use uma_go_sdk.Go.Result.{Result, ok, err, panic, ◌>>=◌, ◌>>◌, missing_signature}
use uma_go_sdk.Go.Time.{Time, unix, unix_seconds}
use uma_go_sdk.Crypto.{Crypto}
use uma_go_sdk.NonceCache.Interface.{NonceCache}
use uma_go_sdk.Protocol.PubKeyResponse.{PubKeyResponse}
use uma_go_sdk.Protocol.LnurlpRequest.{UmaLnurlpRequest, signable_payload}
use uma_go_sdk.Protocol.LnurlpResponse.{UmaLnurlpResponse, response_payload}
use uma_go_sdk.Protocol.PostTransactionCallback.{
  PostTransactionCallback, UtxoWithAmount, callback_payload,
}
use uma_go_sdk.Uma.Signing.{generate_nonce, sign_payload, verify_signature}

-- A check that saves the nonce first, and goes on when it was accepted.
unfoldable pub with_nonce :
    {S : Type 0} ⦃N : NonceCache S⦄ → S → Bytes → Time → Result (Unit {0}) → Result (Unit {0}) × S
with_nonce ⦃N⦄ cache nonce timestamp rest =
    let (r, cache') = N.check_and_save cache nonce timestamp in (r >> rest, cache')

module _ (crypto : Crypto) where
  unfoldable pub verify_uma_lnurlp_query_signature :
      {S : Type 0} ⦃N : NonceCache S⦄
      → UmaLnurlpRequest
      → PubKeyResponse
      → S
      → Result (Unit {0}) × S
  unfolding with_nonce
  verify_uma_lnurlp_query_signature query other_vasp cache =
      with_nonce cache query.nonce query.timestamp (
        signable_payload query.lnurlp_request >>= λ payload.
        verify_signature crypto payload query.signature other_vasp)

  unfoldable pub verify_uma_lnurlp_response_signature :
      {S : Type 0} ⦃N : NonceCache S⦄
      → UmaLnurlpResponse
      → PubKeyResponse
      → S
      → Result (Unit {0}) × S
  unfolding with_nonce
  verify_uma_lnurlp_response_signature response other_vasp cache =
      with_nonce cache response.compliance.nonce (unix response.compliance.timestamp) (
        verify_signature crypto (response_payload response) response.compliance.signature
          other_vasp)

  unfoldable pub get_post_transaction_callback :
      Result ℕ → Bytes → Time → List UtxoWithAmount → Bytes → Bytes → Result PostTransactionCallback
  get_post_transaction_callback draw random now utxos vasp_domain private_key = do
    nonce ← generate_nonce draw
    payload ← callback_payload (record {
      utxos = utxos;
      vasp_domain = some vasp_domain;
      signature = none;
      nonce = some nonce;
      timestamp = some (unix_seconds now);
    })
    signature ← sign_payload crypto random payload private_key
    ok (record {
      utxos = utxos;
      vasp_domain = some vasp_domain;
      signature = some signature;
      nonce = some nonce;
      timestamp = some (unix_seconds now);
    })

  -- The check on the three pointers, when they are set.
  unfoldable pub verify_callback :
      {S : Type 0} ⦃N : NonceCache S⦄
      → PostTransactionCallback
      → PubKeyResponse
      → S
      → Option Bytes
      → Option Bytes
      → Option ℤ
      → Result (Unit {0}) × S
  unfolding with_nonce
  verify_callback callback other_vasp cache (some signature) (some nonce) (some timestamp) =
      with_nonce cache nonce (unix timestamp) (
        callback_payload callback >>= λ payload.
        verify_signature crypto payload signature other_vasp)
  verify_callback callback other_vasp cache _ _ _ = (err missing_signature, cache)

  unfoldable pub verify_post_transaction_callback_signature :
      {S : Type 0} ⦃N : NonceCache S⦄
      → PostTransactionCallback
      → PubKeyResponse
      → S
      → Result (Unit {0}) × S
  unfolding verify_callback
  verify_post_transaction_callback_signature callback other_vasp cache =
      verify_callback callback other_vasp cache callback.signature callback.nonce callback.timestamp
