-- ===== src/NonceCache/Interleaving.antt =====
-- The methods of uma/nonce_cache.go as atomic steps of concurrent callers: an operation of the
-- `sync.Map`, or a read or write of `oldestValidTimestamp`, is one step. A schedule is the list of
-- the positions of the threads that take a step.
use uma_go_sdk.Base.{
  ℕ, zero, suc, ◌+◌, ◌≤◌, List, [], ◌∷◌, Option, none, some, Bool, true, false, ◌≡◌, arith, Bytes,
  eqb, eqb_iff, eqb_refl, if◌then◌else◌, map, All,
}
use uma_go_sdk.Go.Result.{Result, ok, err, timestamp_too_old, nonce_already_used}
use uma_go_sdk.Go.Time.{Time, before}
use uma_go_sdk.Go.Map.{lookup, insert, delete, lookup-insert}
use uma_go_sdk.NonceCache.{
  InMemoryNonceCache, new_in_memory_nonce_cache, load_or_store, check_and_save_nonce,
}

-- Where a caller of one of the two methods stands.
pub data Thread : Type 0 where
  -- CheckAndSaveNonce: before the test of the timestamp, before LoadOrStore, and returned.
  checking storing : Bytes → Time → Thread
  checked : Bytes → Time → Result (Unit {0}) → Thread
  -- PurgeNoncesOlderThan: before Range, with keys left to visit, with one to delete, and returned.
  purging : Time → Thread
  ranging : Time → List Bytes → Thread
  deleting : Time → Bytes → List Bytes → Thread
  purged : Time → Thread

is_older : Time → Option Time → Bool
is_older t none = false
is_older t (some s) = before s t

unfoldable pub step_thread : InMemoryNonceCache → Thread → InMemoryNonceCache × Thread
unfolding load_or_store is_older
step_thread c (checking k t) =
    if before t c.oldest_valid_timestamp
    then (c, checked k t (err timestamp_too_old))
    else (c, storing k t)
step_thread c (storing k t) =
    let (loaded, m) = load_or_store k t c.cache in
    (record c { cache = m }, checked k t (if loaded then err nonce_already_used else ok tt))
step_thread c (checked k t r) = (c, checked k t r)
step_thread c (purging t) = (c, ranging t (map (λ e. e.0) c.cache))
step_thread c (ranging t []) = (record c { oldest_valid_timestamp = t }, purged t)
step_thread c (ranging t (k ∷ ks)) =
    (c, if is_older t (lookup k c.cache) then deleting t k ks else ranging t ks)
step_thread c (deleting t k ks) = (record c { cache = delete k c.cache }, ranging t ks)
step_thread c (purged t) = (c, purged t)

unfoldable pub step_at : InMemoryNonceCache → List Thread → ℕ → InMemoryNonceCache × List Thread
unfolding step_thread
step_at c [] i = (c, [])
step_at c (th ∷ ths) zero = let (c', th') = step_thread c th in (c', th' ∷ ths)
step_at c (th ∷ ths) (suc i) = let (c', ths') = step_at c ths i in (c', th ∷ ths')

unfoldable pub run : InMemoryNonceCache → List Thread → List ℕ → InMemoryNonceCache × List Thread
unfolding step_at
run c ths [] = (c, ths)
run c ths (i ∷ is) = let (c', ths') = step_at c ths i in run c' ths' is

unfoldable pub accepts : Bytes → Thread → ℕ
accepts k (checked j t (ok _)) = if eqb j k then 1 else 0
accepts k _ = 0

-- How many callers have had the nonce `k` accepted.
unfoldable pub accepted : Bytes → List Thread → ℕ
unfolding accepts
accepted k [] = 0
accepted k (th ∷ ths) = accepts k th + accepted k ths

abbrev pub IsCheck : Thread → Type 0
IsCheck (checking k t) = Unit
IsCheck (storing k t) = Unit
IsCheck (checked k t r) = Unit
IsCheck _ = ⊥

unfoldable pub stored : Bytes → InMemoryNonceCache → ℕ
stored k c = elim (lookup k c.cache) [ none ↦ 0 | some _ ↦ 1 ]

module _ (k : Bytes) where
  pub step_thread-accepts :
      (c : InMemoryNonceCache) (th : Thread)
      → IsCheck th
      → IsCheck (step_thread c th).1
        × (accepts k (step_thread c th).1 + stored k c
            ≡ accepts k th + stored k (step_thread c th).0)
  unfolding step_thread accepts stored
  step_thread-accepts c (checking j t) h = ground arith
  step_thread-accepts c (storing j t) h = ground (arith, lookup-insert j k t c.cache, eqb_iff j k)
  step_thread-accepts c (checked j t r) h = (tt, ground arith)
  step_thread-accepts c (purging t) h = elim h [ ]
  step_thread-accepts c (ranging t ks) h = elim h [ ]
  step_thread-accepts c (deleting t j ks) h = elim h [ ]
  step_thread-accepts c (purged t) h = elim h [ ]

  pub step_at-accepted :
      (c : InMemoryNonceCache) (ths : List Thread) (i : ℕ)
      → All IsCheck ths
      → All IsCheck (step_at c ths i).1
        × (accepted k (step_at c ths i).1 + stored k c
            ≡ accepted k ths + stored k (step_at c ths i).0)
  unfolding step_at accepted
  step_at-accepted c [] i h = (tt, omega arith)
  step_at-accepted c (th ∷ ths) zero h =
      let (is_check, e) = step_thread-accepts c th h.0 in ((is_check, h.1), omega arith)
  step_at-accepted c (th ∷ ths) (suc i) h =
      let (are_checks, e) = step_at-accepted c ths i h.1 in ((h.0, are_checks), omega arith)

  pub run-accepted :
      (c : InMemoryNonceCache) (ths : List Thread) (is : List ℕ)
      → All IsCheck ths
      → accepted k (run c ths is).1 + stored k c ≡ accepted k ths + stored k (run c ths is).0
  unfolding run
  run-accepted c ths [] h = omega arith
  run-accepted c ths (i ∷ is) h =
      let (are_checks, e) = step_at-accepted c ths i h in
      omega (arith, run-accepted (step_at c ths i).0 (step_at c ths i).1 is are_checks)

  pub stored-le : (c : InMemoryNonceCache) → stored k c ≤ 1
  unfolding stored
  stored-le c = ground arith

-- Among any number of concurrent checks, under every schedule, at most one caller has a given nonce
-- accepted, if no caller has had it accepted at the start.
pub accepted_once :
    (k : Bytes) (c : InMemoryNonceCache) (ths : List Thread) (schedule : List ℕ)
    → All IsCheck ths
    → accepted k ths ≡ 0
    → accepted k (run c ths schedule).1 ≤ 1
accepted_once k c ths schedule h none_yet =
    omega (arith, run-accepted k c ths schedule h, stored-le k (run c ths schedule).0)

-- A check that runs alone does what `check_and_save_nonce` does.
pub run_alone :
    (c : InMemoryNonceCache) (k : Bytes) (t : Time)
    → run c (checking k t ∷ []) (0 ∷ 0 ∷ [])
      ≡ ((check_and_save_nonce c k t).1, checked k t (check_and_save_nonce c k t).0 ∷ [])
unfolding run check_and_save_nonce
run_alone c k t = ground arith

abbrev racing : Bytes → Time → Time → List Thread
racing k t late = checking k t ∷ checking k t ∷ purging late ∷ []

-- The first check runs, the second passes the test of its timestamp, the purge runs, and the second
-- check stores its nonce.
abbrev pub race : List ℕ
race = 0 ∷ 0 ∷ 1 ∷ 2 ∷ 2 ∷ 2 ∷ 2 ∷ 1 ∷ []

-- With a concurrent purge past its timestamp, one nonce and timestamp is accepted twice: in a new
-- cache two checks of the same nonce and timestamp, and the purge, have a schedule in which both
-- checks are accepted.
pub race_replays :
    (k : Bytes) (t oldest late : Time)
    → before t oldest ≡ false
    → before t late ≡ true
    → accepted k (run (new_in_memory_nonce_cache oldest) (racing k t late) race).1 ≡ 2
unfolding run new_in_memory_nonce_cache accepted lookup insert delete
race_replays k t oldest late h g = simp (h, g, eqb_refl)
