-- ===== src/Uma/Authentic.antt =====
-- The conditions under which the checks of uma/uma.go accept a signed message.
use uma_go_sdk.Base.{◌≡◌, refl, Bytes, Bool, true, false, Option, none, some, ◌↔◌}
use mathlib.Core.Path.{subst}
use uma_go_sdk.Go.Result.{Error, Result, ok, >>=-ok, guard, deref, or_error, library_error}
use uma_go_sdk.Go.Time.{Time}
use uma_go_sdk.Go.Hex.{decode_string}
use uma_go_sdk.Crypto.{Crypto}
use uma_go_sdk.NonceCache.Interface.{NonceCache}
use uma_go_sdk.Protocol.PubKeyResponse.{PubKeyResponse, signing_pub_key}
use uma_go_sdk.Uma.Signing.{verify_signature}
use uma_go_sdk.Uma.Verify.{with_nonce}
use uma_go_sdk.Uma.SignedMessage.{
  SignedMessage, nonce_of, payload_of, signature_of, verify_message, signed_by, IsChecked,
  message-IsChecked,
}

guard_holds : (b : Bool) (problem : Error) → guard b problem ≡ ok tt → b ≡ true
guard_holds true problem h = refl
guard_holds false problem h = cc

or_error-some :
    {A : Type 0} (o : Option A) (problem : Error) {a : A} → or_error o problem ≡ ok a → o ≡ some a
or_error-some none problem h = cc
or_error-some (some b) problem h = cc

deref-some : {A : Type 0} (o : Option A) {a : A} → deref o ≡ ok a → o ≡ some a
deref-some none h = cc
deref-some (some b) h = cc

-- The signature, in hexadecimal digits, is one of the payload's hash by the key that the response
-- holds.
abbrev pub IsSignatureOf : Crypto → PubKeyResponse → Bytes → Bytes → Type 0
IsSignatureOf crypto vasp payload signature =
    (bytes : Bytes) × (parsed : crypto.Signature) × (key_bytes : Bytes) × (key : crypto.PublicKey)
    × (decode_string signature ≡ some bytes)
    × (crypto.parse_der_signature bytes ≡ ok parsed)
    × (signing_pub_key crypto vasp ≡ ok key_bytes)
    × (crypto.parse_pub_key key_bytes ≡ ok key)
    × (crypto.verify parsed (crypto.sha256 payload) key ≡ true)

-- The cache accepts the nonce and the moment of the message, and the message has a payload and a
-- signature of that payload.
abbrev pub IsAuthentic :
    Crypto → {S : Type 0} ⦃N : NonceCache S⦄ → SignedMessage → PubKeyResponse → S → Type 0
IsAuthentic crypto ⦃N⦄ m vasp cache =
    (nonce : Bytes) × (timestamp : Time) × (payload : Bytes) × (signature : Bytes) × (nonce_of m
      ≡ some (nonce, timestamp))
    × ((N.check_and_save cache nonce timestamp).0 ≡ ok tt)
    × (payload_of m ≡ ok payload)
    × (signature_of m ≡ some signature)
    × IsSignatureOf crypto vasp payload signature

module _ (crypto : Crypto) (vasp : PubKeyResponse) where
  verify_signature-IsSignatureOf :
      (payload signature : Bytes)
      → verify_signature crypto payload signature vasp ≡ ok tt
      → IsSignatureOf crypto vasp payload signature
  unfolding verify_signature
  verify_signature-IsSignatureOf payload signature h =
      let (bytes, eb, h1) = >>=-ok (or_error (decode_string signature) library_error) _ h in
      let (parsed, ep, h2) = >>=-ok (crypto.parse_der_signature bytes) _ h1 in
      let (key_bytes, ek, h3) = >>=-ok (signing_pub_key crypto vasp) _ h2 in
      let (key, e, h4) = >>=-ok (crypto.parse_pub_key key_bytes) _ h3 in
      (
        bytes,
        parsed,
        key_bytes,
        key,
        or_error-some (decode_string signature) library_error eb,
        ep,
        ek,
        e,
        guard_holds (crypto.verify parsed (crypto.sha256 payload) key) _ h4,
      )

  IsSignatureOf-verify_signature :
      (payload signature : Bytes)
      → IsSignatureOf crypto vasp payload signature
      → verify_signature crypto payload signature vasp ≡ ok tt
  unfolding verify_signature
  IsSignatureOf-verify_signature payload signature
        (bytes, parsed, key_bytes, key, eb, ep, ek, e, v) =
      rw eb (rw ep (rw ek (rw e (rw v refl))))

  module _ (S : Type 0) ⦃N : NonceCache S⦄ (cache : S) where
    signed_by_parts :
        (p : Result Bytes) (s : Option Bytes)
        → signed_by crypto S vasp p s ≡ ok tt
        → (payload : Bytes) × (signature : Bytes) × (p ≡ ok payload)
          × (s ≡ some signature)
          × IsSignatureOf crypto vasp payload signature
    signed_by_parts p s h =
        let (payload, ep, h1) = >>=-ok p _ h in
        let (signature, es, h2) = >>=-ok (deref s) _ h1 in
        (
          payload,
          signature,
          ep,
          deref-some s es,
          verify_signature-IsSignatureOf payload signature h2,
        )

    with_nonce_parts :
        (nonce : Bytes) (t : Time) (rest : Result (Unit {0}))
        → (with_nonce cache nonce t rest).0 ≡ ok tt
        → ((N.check_and_save cache nonce t).0 ≡ ok tt) × (rest ≡ ok tt)
    unfolding with_nonce
    with_nonce_parts nonce t rest h =
        let (u, e, k) = >>=-ok (N.check_and_save cache nonce t).0 (λ _. rest) h in (e, k)

    checked_parts :
        (n : Option (Bytes × Time)) (f : S → Result (Unit {0}) × S) (rest : Result (Unit {0}))
        → IsChecked crypto S f n rest
        → (f cache).0 ≡ ok tt
        → (nonce : Bytes) × (t : Time) × (n ≡ some (nonce, t))
          × ((N.check_and_save cache nonce t).0 ≡ ok tt)
          × (rest ≡ ok tt)
    checked_parts none f rest checks h = absurd (checks cache h)
    checked_parts (some (nonce, t)) f rest checks h =
        let (e, k) =
          with_nonce_parts nonce t rest
            (subst (λ (x : Result (Unit {0}) × S). x.0 ≡ ok tt) (checks cache) h) in
        (nonce, t, refl, e, k)

    verified-IsAuthentic :
        (m : SignedMessage)
        → (verify_message crypto m vasp cache).0 ≡ ok tt
        → IsAuthentic crypto m vasp cache
    verified-IsAuthentic m h =
        let (nonce, t, en, ec, rest) =
          checked_parts (nonce_of m) (verify_message crypto m vasp)
            (signed_by crypto S vasp (payload_of m) (signature_of m))
            (message-IsChecked crypto S m vasp) h in
        let (payload, signature, ep, es, v) =
          signed_by_parts (payload_of m) (signature_of m) rest in
        (nonce, t, payload, signature, en, ec, ep, es, v)

    IsAuthentic-verified :
        (m : SignedMessage)
        → IsAuthentic crypto m vasp cache
        → (verify_message crypto m vasp cache).0 ≡ ok tt
    unfolding with_nonce
    IsAuthentic-verified m (nonce, t, payload, signature, en, ec, ep, es, v) =
        let checks =
          subst
            (λ n.
              IsChecked crypto S (verify_message crypto m vasp) n
                (signed_by crypto S vasp (payload_of m) (signature_of m)))
            en (message-IsChecked crypto S m vasp) in
        rw (checks cache)
          (rw ec (rw ep (rw es (IsSignatureOf-verify_signature payload signature v))))

-- A message of any kind is accepted exactly when the cache accepts its nonce and its moment, it has a
-- payload and a signature, and the signature, once decoded and parsed, is verified for the hash of the
-- payload under the signing key that the key response holds.
pub verified_iff :
    (crypto : Crypto) {S : Type 0} ⦃N : NonceCache S⦄ (m : SignedMessage) (vasp : PubKeyResponse)
    (cache : S)
    → ((verify_message crypto m vasp cache).0 ≡ ok tt) ↔ IsAuthentic crypto m vasp cache
verified_iff crypto {S} m vasp cache =
    (verified-IsAuthentic crypto vasp S cache m, IsAuthentic-verified crypto vasp S cache m)
