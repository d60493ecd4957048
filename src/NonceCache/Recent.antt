-- ===== src/NonceCache/Recent.antt =====
-- What the nonce cache of uma/nonce_cache.go holds after any calls.
use uma_go_sdk.Base.{false, List, [], ◌∷◌, Option, none, some, ◌≡◌, arith, Bytes, eqb_iff}
use mathlib.Core.Path.{subst}
use uma_go_sdk.Go.Time.{Time, before}
use uma_go_sdk.Go.Map.{lookup, lookup-insert}
use uma_go_sdk.NonceCache.{
  InMemoryNonceCache, new_in_memory_nonce_cache, check_and_save_nonce, purge_nonces_older_than,
  in_memory,
}
use uma_go_sdk.NonceCache.Laws.{
  IsWellFormed, younger, lookup-purge, oldest-purge, purge-IsWellFormed, check-IsWellFormed,
}
use uma_go_sdk.NonceCache.Interface.{Call, check, purge, perform, perform_all}

-- A stored time that is not older than the oldest valid one.
abbrev IsValidAt : Time → Option Time → Type 0
IsValidAt oldest none = Unit
IsValidAt oldest (some t) = before t oldest ≡ false

abbrev IsRecent : Bytes → InMemoryNonceCache → Type 0
IsRecent k c = IsValidAt c.oldest_valid_timestamp (lookup k c.cache)

check-IsRecent :
    (k : Bytes) (c : InMemoryNonceCache) (j : Bytes) (t : Time)
    → IsRecent k c
    → IsRecent k (check_and_save_nonce c j t).1
unfolding check_and_save_nonce
check-IsRecent k c j t h = ground (arith, lookup-insert j k t c.cache, eqb_iff j k)

younger_valid : (t : Time) (stored : Option Time) → IsValidAt t (younger t stored)
younger_valid t none = tt
younger_valid t (some s) = ground arith

purge-IsRecent :
    (k : Bytes) (c : InMemoryNonceCache) (t : Time)
    → IsWellFormed c
    → IsRecent k (purge_nonces_older_than c t)
purge-IsRecent k c t w =
    rw (oldest-purge c t) (rw (lookup-purge c t k w) (younger_valid t (lookup k c.cache)))

perform_all-IsRecent :
    (k : Bytes) (c : InMemoryNonceCache) (calls : List Call)
    → IsWellFormed c
    → IsRecent k c
    → IsRecent k (perform_all c calls)
unfolding perform_all perform
perform_all-IsRecent k c [] w h = h
perform_all-IsRecent k c (check j t ∷ calls) w h =
    perform_all-IsRecent k (check_and_save_nonce c j t).1 calls (check-IsWellFormed c j t w)
      (check-IsRecent k c j t h)
perform_all-IsRecent k c (purge t ∷ calls) w h =
    perform_all-IsRecent k (purge_nonces_older_than c t) calls (purge-IsWellFormed c t w)
      (purge-IsRecent k c t w)

-- After any calls on a new cache, no stored timestamp is older than the oldest valid timestamp.
pub stored_recent :
    (oldest : Time) (calls : List Call) (k : Bytes) (t : Time)
    → lookup k (perform_all (new_in_memory_nonce_cache oldest) calls).cache ≡ some t
    → before t (perform_all (new_in_memory_nonce_cache oldest) calls).oldest_valid_timestamp ≡ false
unfolding new_in_memory_nonce_cache lookup
stored_recent oldest calls k t h =
    let c = new_in_memory_nonce_cache oldest in
    subst (IsValidAt (perform_all c calls).oldest_valid_timestamp) h
      (perform_all-IsRecent k c calls tt tt)
