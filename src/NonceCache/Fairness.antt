-- ===== src/NonceCache/Fairness.antt =====
-- Concurrent calls of CheckAndSaveNonce (uma/nonce_cache.go) under schedules that let each caller go on.
pub mod Turns
use uma_go_sdk.Base.{
  ℕ, zero, suc, ◌+◌, ◌-◌, ◌≤◌, ◌<◌, ◌==◌, List, [], ◌∷◌, none, Bool, true, false, ◌≡◌, ◌⊎◌, inl,
  inr, refl, arith, Bytes, eqb, eqb_iff, if◌then◌else◌, length, All, ◌∙◌,
}
use mathlib.Core.Path.{subst}
use uma_go_sdk.Go.Result.{ok, err}
use uma_go_sdk.Go.Time.{Time, before}
use uma_go_sdk.Go.Map.{lookup, insert, lookup-insert}
use uma_go_sdk.NonceCache.{InMemoryNonceCache, load_or_store}
use uma_go_sdk.NonceCache.Interleaving.{
  Thread, checking, storing, checked, purging, ranging, deleting, purged, step_thread, step_at, run,
  accepts, accepted, IsCheck, stored, step_thread-accepts, run-accepted, stored-le,
}
use uma_go_sdk.NonceCache.Fairness.Turns.{turns, IsDone, fair-IsDone}

-- A caller with a nonce `k`.
calls : Bytes → Thread → ℕ
calls k (checking j t) = if eqb j k then 1 else 0
calls k (storing j t) = if eqb j k then 1 else 0
calls k (checked j t r) = if eqb j k then 1 else 0
calls k _ = 0

unfoldable pub callers : Bytes → List Thread → ℕ
unfolding calls
callers k [] = 0
callers k (th ∷ ths) = calls k th + callers k ths

-- A call that begins, with a timestamp that is not too old.
abbrev pub IsNew : Time → Thread → Type 0
IsNew oldest (checking k t) = before t oldest ≡ false
IsNew oldest _ = ⊥

module _ (k : Bytes) where
  -- A caller that has returned leaves the nonce stored, if it is its own.
  abbrev Fits : InMemoryNonceCache → Thread → Type 0
  Fits c (checking j t) = before t c.oldest_valid_timestamp ≡ false
  Fits c (storing j t) = Unit
  Fits c (checked j t r) = (eqb j k ≡ false) ⊎ (stored k c ≡ 1)
  Fits c _ = ⊥

  -- What the step of a check leaves to the other callers.
  abbrev Keeps : InMemoryNonceCache → InMemoryNonceCache → Type 0
  Keeps c c' = (c'.oldest_valid_timestamp ≡ c.oldest_valid_timestamp) × (stored k c ≤ stored k c')

  Fits-Keeps : (c c' : InMemoryNonceCache) (th : Thread) → Keeps c c' → Fits c th → Fits c' th
  Fits-Keeps c c' (checking j t) keeps h = rw keeps.0 h
  Fits-Keeps c c' (storing j t) keeps h = tt
  Fits-Keeps c c' (checked j t r) keeps (inl e) = inl e
  Fits-Keeps c c' (checked j t r) keeps (inr e) = inr (omega (arith, stored-le k c'))
  Fits-Keeps c c' (purging t) keeps h = absurd h
  Fits-Keeps c c' (ranging t ks) keeps h = absurd h
  Fits-Keeps c c' (deleting t j ks) keeps h = absurd h
  Fits-Keeps c c' (purged t) keeps h = absurd h

  All-Keeps :
      (c c' : InMemoryNonceCache) (ths : List Thread)
      → Keeps c c'
      → All (Fits c) ths
      → All (Fits c') ths
  All-Keeps c c' [] keeps h = tt
  All-Keeps c c' (th ∷ ths) keeps h = (Fits-Keeps c c' th keeps h.0, All-Keeps c c' ths keeps h.1)

  step_thread-Fits :
      (c : InMemoryNonceCache) (th : Thread)
      → Fits c th
      → Fits (step_thread c th).0 (step_thread c th).1
        × Keeps c (step_thread c th).0
        × (calls k (step_thread c th).1 ≡ calls k th)
  unfolding step_thread stored calls load_or_store
  step_thread-Fits c (checking j t) h = rw h (tt, (refl, omega arith), refl)
  step_thread-Fits c (storing j t) h = ground (arith, lookup-insert j k t c.cache, eqb_iff j k)
  step_thread-Fits c (checked j t r) h = (h, (refl, omega arith), refl)
  step_thread-Fits c (purging t) h = absurd h
  step_thread-Fits c (ranging t ks) h = absurd h
  step_thread-Fits c (deleting t j ks) h = absurd h
  step_thread-Fits c (purged t) h = absurd h

  step_at-Fits :
      (c : InMemoryNonceCache) (ths : List Thread) (i : ℕ)
      → All (Fits c) ths
      → All (Fits (step_at c ths i).0) (step_at c ths i).1
        × Keeps c (step_at c ths i).0
        × (callers k (step_at c ths i).1 ≡ callers k ths)
  unfolding step_at callers
  step_at-Fits c [] i h = (tt, (refl, omega arith), refl)
  step_at-Fits c (th ∷ ths) zero h =
      let (fits, keeps, same) = step_thread-Fits c th h.0 in
      ((fits, All-Keeps c (step_thread c th).0 ths keeps h.1), keeps, rw same refl)
  step_at-Fits c (th ∷ ths) (suc i) h =
      let (fits, keeps, same) = step_at-Fits c ths i h.1 in
      ((Fits-Keeps c (step_at c ths i).0 th keeps h.0, fits), keeps, rw same refl)

  run-Fits :
      (c : InMemoryNonceCache) (ths : List Thread) (is : List ℕ)
      → All (Fits c) ths
      → All (Fits (run c ths is).0) (run c ths is).1 × (callers k (run c ths is).1 ≡ callers k ths)
  unfolding run
  run-Fits c ths [] h = (h, refl)
  run-Fits c ths (i ∷ is) h =
      let (fits, keeps, same) = step_at-Fits c ths i h in
      let (fits', same') = run-Fits (step_at c ths i).0 (step_at c ths i).1 is fits in
      (fits', same' ∙ same)

  Fits-IsCheck : (c : InMemoryNonceCache) (ths : List Thread) → All (Fits c) ths → All IsCheck ths
  Fits-IsCheck c [] h = tt
  Fits-IsCheck c (checking j t ∷ ths) h = (tt, Fits-IsCheck c ths h.1)
  Fits-IsCheck c (storing j t ∷ ths) h = (tt, Fits-IsCheck c ths h.1)
  Fits-IsCheck c (checked j t r ∷ ths) h = (tt, Fits-IsCheck c ths h.1)
  Fits-IsCheck c (purging t ∷ ths) h = absurd h.0
  Fits-IsCheck c (ranging t ks ∷ ths) h = absurd h.0
  Fits-IsCheck c (deleting t j ks ∷ ths) h = absurd h.0
  Fits-IsCheck c (purged t ∷ ths) h = absurd h.0

  new-Fits :
      (c : InMemoryNonceCache) (ths : List Thread)
      → All (IsNew c.oldest_valid_timestamp) ths
      → All (Fits c) ths × (accepted k ths ≡ 0)
  unfolding accepted accepts
  new-Fits c [] h = (tt, refl)
  new-Fits c (checking j t ∷ ths) h =
      let (fits, none_yet) = new-Fits c ths h.1 in ((h.0, fits), omega arith)
  new-Fits c (storing j t ∷ ths) h = absurd h.0
  new-Fits c (checked j t r ∷ ths) h = absurd h.0
  new-Fits c (purging t ∷ ths) h = absurd h.0
  new-Fits c (ranging t ks ∷ ths) h = absurd h.0
  new-Fits c (deleting t j ks ∷ ths) h = absurd h.0
  new-Fits c (purged t ∷ ths) h = absurd h.0

  done-stored :
      (c : InMemoryNonceCache) (ths : List Thread)
      → All (Fits c) ths
      → All IsDone ths
      → 0 < callers k ths
      → stored k c ≡ 1
  unfolding callers calls
  done-stored c [] h d some_caller = omega arith
  done-stored c (checked j t r ∷ ths) (inr e, fits) d some_caller = e
  done-stored c (checked j t r ∷ ths) (inl e, fits) d some_caller =
      done-stored c ths fits d.1 (ground arith)
  done-stored c (checking j t ∷ ths) h d some_caller = absurd d.0
  done-stored c (storing j t ∷ ths) h d some_caller = absurd d.0
  done-stored c (purging t ∷ ths) h d some_caller = absurd d.0
  done-stored c (ranging t ks ∷ ths) h d some_caller = absurd d.0
  done-stored c (deleting t j ks ∷ ths) h d some_caller = absurd d.0
  done-stored c (purged t ∷ ths) h d some_caller = absurd d.0

fresh_stored : (k : Bytes) (c : InMemoryNonceCache) → lookup k c.cache ≡ none → stored k c ≡ 0
unfolding stored
fresh_stored k c fresh = ground arith

-- Callers that check nonces at once, none with a timestamp that is too old: when the schedule takes
-- each at least twice, they have all returned, and of those with a given nonce that the cache has not
-- stored at the start, if there is any, exactly one has it accepted.
pub one_accepted :
    (k : Bytes) (c : InMemoryNonceCache) (ths : List Thread) (schedule : List ℕ)
    → lookup k c.cache ≡ none
    → All (IsNew c.oldest_valid_timestamp) ths
    → ((i : ℕ) → i < length ths → 2 ≤ turns i schedule)
    → 0 < callers k ths
    → All IsDone (run c ths schedule).1 × (accepted k (run c ths schedule).1 ≡ 1)
one_accepted k c ths schedule fresh new fair some_caller =
    let (fits, none_yet) = new-Fits k c ths new in
    let (fits', same) = run-Fits k c ths schedule fits in
    let done : All IsDone (run c ths schedule).1 =
      fair-IsDone c ths schedule (Fits-IsCheck k (run c ths schedule).0 _ fits') fair in
    let stores : stored k (run c ths schedule).0 ≡ 1 =
      done-stored k (run c ths schedule).0 _ fits' done (omega arith) in
    let stores_none : stored k c ≡ 0 = fresh_stored k c fresh in
    (done, omega (arith, run-accepted k c ths schedule (Fits-IsCheck k c ths fits)))
