-- ===== src/Uma/ReplayLaws.antt =====
-- The checks of signed messages in uma/uma.go and the nonce cache: the same nonce a second time.
use uma_go_sdk.Base.{◌∙◌, ◌≡◌, ◌≢◌, refl, List, Bytes, false, none, some}
use mathlib.Core.Path.{subst}
use uma_go_sdk.Go.Result.{Result, ok, err, panic, ◌>>◌}
use uma_go_sdk.Go.Time.{Time, before}
use uma_go_sdk.Go.Map.{lookup}
use uma_go_sdk.Crypto.{Crypto}
use uma_go_sdk.NonceCache.{InMemoryNonceCache, in_memory}
use uma_go_sdk.NonceCache.Interface.{
  NonceCache, Call, perform_all, ReplaySafe, Advances, accepted_refused,
}
use uma_go_sdk.NonceCache.Replay.{fresh_accepted}
use uma_go_sdk.Protocol.PubKeyResponse.{PubKeyResponse}
use uma_go_sdk.Uma.Verify.{with_nonce}
use uma_go_sdk.Uma.Authentic.{verified_iff}
use uma_go_sdk.Uma.SignedMessage.{
  SignedMessage, nonce_of, payload_of, signature_of, verify_message, signed_by, IsChecked,
  message-IsChecked,
}

then_inv : (m : Result (Unit {0})) (k : Result (Unit {0})) → (m >> k) ≡ ok tt → m ≡ ok tt
then_inv (ok u) k h = refl
then_inv (err e) k h = cc
then_inv panic k h = cc

pub with_nonce_fresh :
    (c : InMemoryNonceCache) (nonce : Bytes) (t : Time) (r : Result (Unit {0}))
    → lookup nonce c.cache ≡ none
    → before t c.oldest_valid_timestamp ≡ false
    → r ≡ ok tt
    → (with_nonce c nonce t r).0 ≡ ok tt
unfolding with_nonce
with_nonce_fresh c nonce t r h g e = rw (fresh_accepted nonce t c h g) e

module _ (crypto : Crypto) (S : Type 0) ⦃N : NonceCache S⦄ where
  message-IsChecked-some :
      (m : SignedMessage) (vasp : PubKeyResponse) (nonce : Bytes) (t : Time)
      → nonce_of m ≡ some (nonce, t)
      → IsChecked crypto S
          (verify_message crypto m vasp)
          (some (nonce, t))
          (signed_by crypto S vasp (payload_of m) (signature_of m))
  message-IsChecked-some m vasp nonce t e =
      subst
        (λ n.
          IsChecked crypto S (verify_message crypto m vasp) n
            (signed_by crypto S vasp (payload_of m) (signature_of m)))
        e (message-IsChecked crypto S m vasp)

  module _ (safe : ReplaySafe N) (c : S) (calls : List Call) where
    saved_once :
        (nonce : Bytes) (t : Time) (r r' : Result (Unit {0}))
        → safe.IsValid c
        → (N.check_and_save c nonce t).0 ≡ ok tt
        → Advances safe (with_nonce c nonce t r).1 calls
        → (with_nonce (perform_all (with_nonce c nonce t r).1 calls) nonce t r').0 ≢ ok tt
    unfolding with_nonce
    saved_once nonce t r r' w h adv again =
        accepted_refused safe c nonce t calls w h adv (then_inv _ r' again)

    checked_once :
        (k : Bytes) (t : Time) (f f' : S → Result (Unit {0}) × S) (r r' : Result (Unit {0}))
        → IsChecked crypto S f (some (k, t)) r
        → IsChecked crypto S f' (some (k, t)) r'
        → safe.IsValid c
        → (N.check_and_save c k t).0 ≡ ok tt
        → Advances safe (f c).1 calls
        → (f' (perform_all (f c).1 calls)).0 ≢ ok tt
    checked_once k t f f' r r' e e' w h adv = rw e' (
        rw (e c) (
          saved_once k t r r' w h
            (subst (λ (x : Result (Unit {0}) × S). Advances safe x.1 calls) (e c) adv)))

-- The check of a message uses its nonce up even when its signature is refused: if the cache accepts
-- the nonce and the moment of a message, then after its check no message of any kind with the same two
-- is accepted, whoever is taken to have signed it and whatever nonces are checked and purges made in
-- between, if no purge goes back in time and the cache keeps replays out.
pub nonce_used_up :
    (crypto : Crypto) {S : Type 0} ⦃N : NonceCache S⦄ (safe : ReplaySafe N) (cache : S)
    (calls : List Call) (m m' : SignedMessage) (vasp vasp' : PubKeyResponse) (nonce : Bytes)
    (t : Time)
    → safe.IsValid cache
    → nonce_of m ≡ some (nonce, t)
    → nonce_of m' ≡ some (nonce, t)
    → (N.check_and_save cache nonce t).0 ≡ ok tt
    → Advances safe (verify_message crypto m vasp cache).1 calls
    → (verify_message crypto m' vasp' (perform_all (verify_message crypto m vasp cache).1 calls)).0
      ≢ ok tt
nonce_used_up crypto {S} safe cache calls m m' vasp vasp' nonce t w e e' h adv =
    checked_once crypto S safe cache calls nonce t (verify_message crypto m vasp)
      (verify_message crypto m' vasp') (signed_by crypto S vasp (payload_of m) (signature_of m))
      (signed_by crypto S vasp' (payload_of m') (signature_of m'))
      (message-IsChecked-some crypto S m vasp nonce t e)
      (message-IsChecked-some crypto S m' vasp' nonce t e') w h adv

-- A message whose signature was accepted is refused when it comes again, whatever nonces were checked
-- and purges made since, if no purge goes back in time and the cache keeps replays out; so is any
-- other message of any kind with its nonce and timestamp, whoever is taken to have signed it.
pub verified_once :
    (crypto : Crypto) {S : Type 0} ⦃N : NonceCache S⦄ (safe : ReplaySafe N) (cache : S)
    (calls : List Call) (m m' : SignedMessage) (vasp vasp' : PubKeyResponse)
    → safe.IsValid cache
    → nonce_of m' ≡ nonce_of m
    → (verify_message crypto m vasp cache).0 ≡ ok tt
    → Advances safe (verify_message crypto m vasp cache).1 calls
    → (verify_message crypto m' vasp' (perform_all (verify_message crypto m vasp cache).1 calls)).0
      ≢ ok tt
verified_once crypto safe cache calls m m' vasp vasp' w same h adv =
    let (nonce, t, payload, signature, e, saved, ep, es, v) =
      (verified_iff crypto m vasp cache).0 h in
    nonce_used_up crypto safe cache calls m m' vasp vasp' nonce t w e (same ∙ e) saved adv
