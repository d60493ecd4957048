-- ===== src/NonceCache/Linear.antt =====
-- Concurrent calls of CheckAndSaveNonce (uma/nonce_cache.go) against calls that run one by one.
use uma_go_sdk.Base.{
  ℕ, zero, suc, List, [], ◌∷◌, ◌++◌, false, ◌≡◌, refl, Bytes, All, append-nil, Bool-cases, inl, inr,
}
use uma_go_sdk.Go.Result.{Result}
use uma_go_sdk.Go.Time.{Time, before}
use uma_go_sdk.NonceCache.{InMemoryNonceCache, check_and_save_nonce}
use uma_go_sdk.NonceCache.Interleaving.{
  Thread, checking, storing, checked, purging, ranging, deleting, purged, step_thread, step_at, run,
}

-- A return from a call: its nonce, its timestamp and its result.
abbrev pub Return : Type 0
Return = Bytes × Time × Result (Unit {0})

-- What a caller that steps from the first thread to the second has returned.
unfoldable pub returns : Thread → Thread → List Return
returns (checking j s) (checked k t r) = (k, t, r) ∷ []
returns (storing j s) (checked k t r) = (k, t, r) ∷ []
returns _ _ = []

unfoldable pub all_returns : List Thread → List Thread → List Return
unfolding returns
all_returns [] ths' = []
all_returns (th ∷ ths) [] = []
all_returns (th ∷ ths) (th' ∷ ths') = returns th th' ++ all_returns ths ths'

-- The returns of a run, in their order.
unfoldable pub history : InMemoryNonceCache → List Thread → List ℕ → List Return
unfolding all_returns
history c ths [] = []
history c ths (i ∷ is) =
    all_returns ths (step_at c ths i).1 ++ history (step_at c ths i).0 (step_at c ths i).1 is

-- One by one, these calls return these results, and lead from the one cache to the other.
abbrev pub IsSequential : InMemoryNonceCache → List Return → InMemoryNonceCache → Type 0
IsSequential c [] c' = c ≡ c'
IsSequential c ((k, t, r) ∷ rs) c' =
    ((check_and_save_nonce c k t).0 ≡ r) × IsSequential (check_and_save_nonce c k t).1 rs c'

-- A check that has not yet stored a nonce with a timestamp that is too old.
abbrev pub IsFit : Time → Thread → Type 0
IsFit oldest (checking k t) = Unit
IsFit oldest (storing k t) = before t oldest ≡ false
IsFit oldest (checked k t r) = Unit
IsFit oldest _ = ⊥

IsSequential-append :
    (c c' c'' : InMemoryNonceCache) (rs ss : List Return)
    → IsSequential c rs c'
    → IsSequential c' ss c''
    → IsSequential c (rs ++ ss) c''
IsSequential-append c c' c'' [] ss h k = rw h k
IsSequential-append c c' c'' ((n, t, r) ∷ rs) ss h k =
    (h.0, IsSequential-append (check_and_save_nonce c n t).1 c' c'' rs ss h.1 k)

returns_refl : (th : Thread) → returns th th ≡ []
unfolding returns
returns_refl (checking k t) = refl
returns_refl (storing k t) = refl
returns_refl (checked k t r) = refl
returns_refl (purging t) = refl
returns_refl (ranging t ks) = refl
returns_refl (deleting t k ks) = refl
returns_refl (purged t) = refl

all_returns_refl : (ths : List Thread) → all_returns ths ths ≡ []
unfolding all_returns
all_returns_refl [] = refl
all_returns_refl (th ∷ ths) = rw (returns_refl th) (all_returns_refl ths)

step_thread-IsSequential :
    (c : InMemoryNonceCache) (th : Thread)
    → IsFit c.oldest_valid_timestamp th
    → IsSequential c (returns th (step_thread c th).1) (step_thread c th).0
      × IsFit c.oldest_valid_timestamp (step_thread c th).1
      × ((step_thread c th).0.oldest_valid_timestamp ≡ c.oldest_valid_timestamp)
unfolding returns step_thread check_and_save_nonce
step_thread-IsSequential c (checking k t) h =
    elim (Bool-cases (before t c.oldest_valid_timestamp)) [
      | inl old ↦ rw old ((rw old refl, rw old refl), tt, refl)
      | inr new ↦ rw new (refl, new, refl)
    ]
step_thread-IsSequential c (storing k t) h = ((rw h refl, rw h refl), tt, refl)
step_thread-IsSequential c (checked k t r) h = (refl, tt, refl)
step_thread-IsSequential c (purging t) h = absurd h
step_thread-IsSequential c (ranging t ks) h = absurd h
step_thread-IsSequential c (deleting t k ks) h = absurd h
step_thread-IsSequential c (purged t) h = absurd h

step_at-IsSequential :
    (c : InMemoryNonceCache) (ths : List Thread) (i : ℕ)
    → All (IsFit c.oldest_valid_timestamp) ths
    → IsSequential c (all_returns ths (step_at c ths i).1) (step_at c ths i).0
      × All (IsFit c.oldest_valid_timestamp) (step_at c ths i).1
      × ((step_at c ths i).0.oldest_valid_timestamp ≡ c.oldest_valid_timestamp)
unfolding all_returns step_at
step_at-IsSequential c [] i h = (refl, tt, refl)
step_at-IsSequential c (th ∷ ths) zero h =
    let (seq, fit, old) = step_thread-IsSequential c th h.0 in
    (rw (all_returns_refl ths) (rw append-nil seq), (fit, h.1), old)
step_at-IsSequential c (th ∷ ths) (suc i) h =
    let (seq, fits, old) = step_at-IsSequential c ths i h.1 in
    (rw (returns_refl th) seq, (h.0, fits), old)

-- Whatever the schedule, concurrent checks return what checks one by one return, in the order in
-- which they decide, and leave the cache that these leave; if none that has passed the test of its
-- timestamp has one that is too old, and no purge runs.
pub linear :
    (c : InMemoryNonceCache) (ths : List Thread) (schedule : List ℕ)
    → All (IsFit c.oldest_valid_timestamp) ths
    → IsSequential c (history c ths schedule) (run c ths schedule).0
unfolding history run
linear c ths [] h = refl
linear c ths (i ∷ is) h =
    let (seq, fits, old) = step_at-IsSequential c ths i h in
    IsSequential-append c (step_at c ths i).0 _ (all_returns ths (step_at c ths i).1) _ seq
      (linear (step_at c ths i).0 (step_at c ths i).1 is (rw old fits))
