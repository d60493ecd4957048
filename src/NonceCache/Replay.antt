-- ===== src/NonceCache/Replay.antt =====
-- Replay protection of the nonce cache (uma/nonce_cache.go) over sequences of calls.
use uma_go_sdk.Base.{
  List, [], ◌∷◌, none, some, true, false, ◌≡◌, ◌≢◌, ◌⊎◌, arith, Bytes, eqb_iff, eqb_refl,
}
use uma_go_sdk.Go.Result.{ok}
use uma_go_sdk.Go.Time.{Time, before, before_trans}
use uma_go_sdk.Go.Map.{lookup, lookup-insert}
use uma_go_sdk.NonceCache.Interface.{
  Call, purge, perform, perform_all, ReplaySafe, Advances, accepted_refused,
}
use uma_go_sdk.NonceCache.{
  InMemoryNonceCache, check_and_save_nonce, purge_nonces_older_than, in_memory,
}
use uma_go_sdk.NonceCache.Laws.{
  IsWellFormed, lookup-purge, oldest-purge, check-accepts, purge-IsWellFormed, check-IsWellFormed,
}

-- The nonce is stored with its timestamp, or that timestamp has become too old.
abbrev pub Spent : Bytes → Time → InMemoryNonceCache → Type 0
Spent k t c = (lookup k c.cache ≡ some t) ⊎ (before t c.oldest_valid_timestamp ≡ true)

module _ (k : Bytes) (t : Time) where
  pub check-Spent :
      (c : InMemoryNonceCache) (j : Bytes) (s : Time)
      → Spent k t c
      → Spent k t (check_and_save_nonce c j s).1
  unfolding check_and_save_nonce
  check-Spent c j s h = ground (arith, lookup-insert j k s c.cache, eqb_iff j k)

  pub purge-Spent :
      (c : InMemoryNonceCache) (s : Time)
      → IsWellFormed c
      → before s c.oldest_valid_timestamp ≡ false
      → Spent k t c
      → Spent k t (purge_nonces_older_than c s)
  purge-Spent c s w later h =
      ground
        (arith, lookup-purge c s k w, oldest-purge c s, before_trans t c.oldest_valid_timestamp s)

  pub Spent-refused :
      (c : InMemoryNonceCache) → Spent k t c → (check_and_save_nonce c k t).0 ≢ ok tt
  unfolding check_and_save_nonce
  Spent-refused c h = ground arith

  pub accepted-Spent :
      (c : InMemoryNonceCache)
      → (check_and_save_nonce c k t).0 ≡ ok tt
      → Spent k t (check_and_save_nonce c k t).1
  unfolding check_and_save_nonce
  accepted-Spent c h = ground (arith, lookup-insert k k t c.cache, eqb_refl k)

pub fresh_accepted :
    (k : Bytes) (t : Time) (c : InMemoryNonceCache)
    → lookup k c.cache ≡ none
    → before t c.oldest_valid_timestamp ≡ false
    → (check_and_save_nonce c k t).0 ≡ ok tt
unfolding check_and_save_nonce
fresh_accepted k t c h g = ground arith

-- The in-memory cache fills the interface; a purge goes forward when its time is not before that of
-- the last one.
abbrev pub in_memory_safe : ReplaySafe in_memory
in_memory_safe = record {
  IsValid = IsWellFormed;
  Spent = Spent;
  IsForward = λ c t. before t c.oldest_valid_timestamp ≡ false;
  check_valid = check-IsWellFormed;
  purge_valid = purge-IsWellFormed;
  accepted_spent = accepted-Spent;
  check_spent = check-Spent;
  purge_spent = purge-Spent;
  spent_refused = Spent-refused;
}

-- A nonce and timestamp that the cache accepted is never accepted again, whatever calls come
-- between, if the purges among them never go back in time.
pub no_replay :
    (c : InMemoryNonceCache) (k : Bytes) (t : Time) (calls : List Call)
    → IsWellFormed c
    → (check_and_save_nonce c k t).0 ≡ ok tt
    → Advances in_memory_safe (check_and_save_nonce c k t).1 calls
    → (check_and_save_nonce (perform_all (check_and_save_nonce c k t).1 calls) k t).0 ≢ ok tt
no_replay c k t calls w accepted adv = accepted_refused in_memory_safe c k t calls w accepted adv

-- A purge that goes back in time opens the cache to a replay: after a purge past the timestamp and
-- one to a time that is not past it, an accepted nonce and timestamp is accepted again.
pub rollback_replays :
    (c : InMemoryNonceCache) (k : Bytes) (t late early : Time)
    → IsWellFormed c
    → (check_and_save_nonce c k t).0 ≡ ok tt
    → before t late ≡ true
    → before t early ≡ false
    → (check_and_save_nonce
        (perform_all (check_and_save_nonce c k t).1 (purge late ∷ purge early ∷ []))
        k
        t).0
      ≡ ok tt
rollback_replays c k t late early w accepted h g =
    let c₁ = (check_and_save_nonce c k t).1 in
    let c₂ = purge_nonces_older_than c₁ late in
    let w₁ : IsWellFormed c₁ = check-IsWellFormed c k t w in
    unfold perform_all perform in
    fresh_accepted k t (purge_nonces_older_than c₂ early)
      (ground (
        arith,
        lookup-purge c₁ late k w₁,
        lookup-purge c₂ early k (purge-IsWellFormed c₁ late w₁),
        (check-accepts c k t accepted).2 k,
        eqb_refl k,
      ))
      (ground (arith, oldest-purge c₂ early))
