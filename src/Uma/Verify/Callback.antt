-- ===== src/Uma/Verify/Callback.antt =====
-- The signed callback and its check (GetPostTransactionCallback and
-- VerifyPostTransactionCallbackSignature of uma/uma.go).
use uma_go_sdk.Base.{ℕ, false, ◌≡◌, refl, none, some, List, [], ◌∷◌, Bytes, All}
use uma_go_sdk.Go.Result.{ok}
use uma_go_sdk.Go.Strings.{join}
use uma_go_sdk.Go.Strconv.{format_uint, format_int}
use uma_go_sdk.Go.Time.{Time, unix, unix_seconds, before}
use uma_go_sdk.Go.Map.{lookup}
use uma_go_sdk.Go.Hex.{encode_to_string}
use uma_go_sdk.Crypto.{Crypto, IsKeyPair, IsSigner}
use uma_go_sdk.NonceCache.{in_memory, InMemoryNonceCache}
use uma_go_sdk.Protocol.PubKeyResponse.{PubKeyResponse, signing_pub_key}
use uma_go_sdk.Protocol.PostTransactionCallback.{
  PostTransactionCallback, UtxoWithAmount, callback_payload,
}
use uma_go_sdk.Base.Int.{wrap_i64-IsInt64}
use uma_go_sdk.Protocol.PostTransactionCallback.Json.{
  UtxoIsKept, marshal_callback, unmarshal_callback, callback-unmarshal-marshal,
}
use uma_go_sdk.Uma.Signing.{sign_payload, sign_payload_to_bytes, generate_nonce}
use uma_go_sdk.Uma.SigningLaws.{verify-sign_payload}
use uma_go_sdk.Uma.ReplayLaws.{with_nonce_fresh}
use uma_go_sdk.Uma.Verify.{
  get_post_transaction_callback, verify_post_transaction_callback_signature, verify_callback,
}

module _ (crypto : Crypto) (private_key public_key : Bytes)
    (pair : IsKeyPair crypto private_key public_key) (vasp : PubKeyResponse)
    (has_key : signing_pub_key crypto vasp ≡ ok public_key) (n : ℕ) (random : Bytes)
    (now : Time) where
  -- The callback with this signature.
  abbrev signed_callback : List UtxoWithAmount → Bytes → Bytes → PostTransactionCallback
  signed_callback utxos vasp_domain signature = record {
    utxos = utxos;
    vasp_domain = some vasp_domain;
    signature = some signature;
    nonce = some (format_uint n);
    timestamp = some (unix_seconds now);
  }

  callback_made :
      (utxos : List UtxoWithAmount) (vasp_domain : Bytes) (cache : InMemoryNonceCache)
      → IsSigner crypto random private_key
      → lookup (format_uint n) cache.cache ≡ none
      → before (unix (unix_seconds now)) cache.oldest_valid_timestamp ≡ false
      → (signature : Bytes) × (get_post_transaction_callback crypto
            (ok n)
            random
            now
            utxos
            vasp_domain
            private_key
          ≡ ok (signed_callback utxos vasp_domain signature))
        × ((verify_post_transaction_callback_signature crypto
              (signed_callback utxos vasp_domain signature)
              vasp
              cache).0
            ≡ ok tt)
  unfolding get_post_transaction_callback verify_post_transaction_callback_signature verify_callback
      generate_nonce callback_payload
  callback_made utxos vasp_domain cache signer fresh young =
      let payload = join b'|' (format_uint n ∷ format_int (unix_seconds now) ∷ []) in
      let (s, es) = signer (crypto.sha256 payload) in
      let signed : sign_payload crypto random payload private_key ≡ ok (encode_to_string s) =
        unfold sign_payload sign_payload_to_bytes in rw es refl in
      (
        encode_to_string s,
        rw signed refl,
        with_nonce_fresh cache (format_uint n) (unix (unix_seconds now)) _ fresh young (
            verify-sign_payload crypto private_key public_key pair vasp has_key random payload
              (encode_to_string s) signed),
      )

  -- A callback is made whenever the private key signs, and its receiver accepts the signature, if the
  -- receiver's copy of the keys has the public key of the pair, and its nonce cache has not seen the
  -- nonce and does not find the moment too old.
  pub callback_verified :
      (utxos : List UtxoWithAmount) (vasp_domain : Bytes) (cache : InMemoryNonceCache)
      → IsSigner crypto random private_key
      → lookup (format_uint n) cache.cache ≡ none
      → before (unix (unix_seconds now)) cache.oldest_valid_timestamp ≡ false
      → (c : PostTransactionCallback) × (get_post_transaction_callback crypto
            (ok n)
            random
            now
            utxos
            vasp_domain
            private_key
          ≡ ok c)
        × ((verify_post_transaction_callback_signature crypto c vasp cache).0 ≡ ok tt)
  callback_verified utxos vasp_domain cache signer fresh young =
      let (signature, made, accepted) = callback_made utxos vasp_domain cache signer fresh young in
      (signed_callback utxos vasp_domain signature, made, accepted)

  -- A callback is made whenever the private key signs; its receiver reads it from its JSON form with the
  -- same transactions, and accepts its signature, if the amounts are int64, the receiver's copy of the
  -- keys has the public key of the pair, and its nonce cache has not seen the nonce and does not find
  -- the moment too old.
  pub callback_received :
      (utxos : List UtxoWithAmount) (vasp_domain : Bytes) (cache : InMemoryNonceCache)
      → All UtxoIsKept utxos
      → IsSigner crypto random private_key
      → lookup (format_uint n) cache.cache ≡ none
      → before (unix (unix_seconds now)) cache.oldest_valid_timestamp ≡ false
      → (c : PostTransactionCallback) × (q : PostTransactionCallback)
        × (get_post_transaction_callback crypto (ok n) random now utxos vasp_domain private_key
            ≡ ok c)
        × (unmarshal_callback (marshal_callback c) ≡ ok q)
        × (q.utxos ≡ utxos)
        × ((verify_post_transaction_callback_signature crypto q vasp cache).0 ≡ ok tt)
  callback_received utxos vasp_domain cache amounts signer fresh young =
      let (signature, made, accepted) = callback_made utxos vasp_domain cache signer fresh young in
      let c = signed_callback utxos vasp_domain signature in
      (
        c,
        c,
        made,
        callback-unmarshal-marshal c amounts (unfold unix_seconds in wrap_i64-IsInt64 _),
        refl,
        accepted,
      )
