-- ===== src/NonceCache.antt =====
-- uma/nonce_cache.go: the in-memory nonce cache. A method returns its result and the new state.
pub mod Interface
pub mod Laws
pub mod Replay
pub mod Interleaving
pub mod Fairness
pub mod Linear
pub mod Recent
mod Tests
use uma_go_sdk.Base.{List, [], ◌∷◌, Option, none, some, Bool, Bytes, if◌then◌else◌}
use uma_go_sdk.Go.Result.{Result, ok, err, timestamp_too_old, nonce_already_used}
use uma_go_sdk.Go.Time.{Time, before}
use uma_go_sdk.Go.Map.{Map, lookup, insert, delete}
use uma_go_sdk.NonceCache.Interface.{NonceCache}

pub record InMemoryNonceCache : Type 0 where
  pub cache : Map Time
  pub oldest_valid_timestamp : Time

unfoldable pub new_in_memory_nonce_cache : Time → InMemoryNonceCache
new_in_memory_nonce_cache oldest = record { cache = []; oldest_valid_timestamp = oldest }

-- sync.Map.LoadOrStore: whether the key was there, and the map with the key. It is one atomic step.
unfoldable pub load_or_store : Bytes → Time → Map Time → Bool × Map Time
load_or_store nonce timestamp m = elim (lookup nonce m) [
  | some t ↦ (Bool.true, m)
  | none ↦ (Bool.false, insert nonce timestamp m)
]

unfoldable pub check_and_save_nonce :
    InMemoryNonceCache → Bytes → Time → Result (Unit {0}) × InMemoryNonceCache
unfolding load_or_store
check_and_save_nonce c nonce timestamp =
    if before timestamp c.oldest_valid_timestamp
    then (err timestamp_too_old, c)
    else let (loaded, m) = load_or_store nonce timestamp c.cache in
      (if loaded then err nonce_already_used else ok tt, record c { cache = m })

-- The callback of `Range`, over the entries that are left to visit.
unfoldable pub range_delete : Time → Map Time → Map Time → Map Time
range_delete timestamp [] m = m
range_delete timestamp ((nonce, t) ∷ entries) m =
    range_delete timestamp entries (if before t timestamp then delete nonce m else m)

unfoldable pub purge_nonces_older_than : InMemoryNonceCache → Time → InMemoryNonceCache
unfolding range_delete
purge_nonces_older_than c timestamp = record {
  cache = range_delete timestamp c.cache c.cache;
  oldest_valid_timestamp = timestamp;
}

instance abbrev pub in_memory : NonceCache InMemoryNonceCache
in_memory = record {
  check_and_save = check_and_save_nonce;
  purge_older_than = purge_nonces_older_than;
}
