-- ===== src/NonceCache/Fairness/Turns.antt =====
-- How many steps a call of CheckAndSaveNonce (uma/nonce_cache.go) takes, and schedules that let each
-- caller return.
use uma_go_sdk.Base.{
  ℕ, zero, suc, ◌+◌, ◌-◌, ◌≤◌, ◌<◌, ◌==◌, List, [], ◌∷◌, ◌≡◌, ◌⊎◌, inl, inr, refl, arith,
  if◌then◌else◌, length, All,
}
use uma_go_sdk.NonceCache.{InMemoryNonceCache}
use uma_go_sdk.NonceCache.Interleaving.{
  Thread, checking, storing, checked, purging, ranging, deleting, purged, step_thread, step_at, run,
  IsCheck,
}

-- How often a schedule takes the thread at a position.
unfoldable pub turns : ℕ → List ℕ → ℕ
turns i [] = 0
turns i (j ∷ schedule) = (if j == i then 1 else 0) + turns i schedule

abbrev pub IsDone : Thread → Type 0
IsDone (checked k t r) = Unit
IsDone _ = ⊥

steps_left : Thread → ℕ
steps_left (checking k t) = 2
steps_left (storing k t) = 1
steps_left _ = 0

left : ℕ → List Thread → ℕ
unfolding steps_left
left i [] = 0
left zero (th ∷ ths) = steps_left th
left (suc i) (th ∷ ths) = left i ths

step_thread-left :
    (c : InMemoryNonceCache) (th : Thread) → steps_left (step_thread c th).1 ≤ steps_left th - 1
unfolding step_thread steps_left
step_thread-left c th = ground arith

step_at-left :
    (c : InMemoryNonceCache) (ths : List Thread) (j i : ℕ)
    → left i (step_at c ths j).1 ≤ left i ths - (if j == i then 1 else 0)
unfolding step_at left
step_at-left c [] j i = ground arith
step_at-left c (th ∷ ths) zero zero = step_thread-left c th
step_at-left c (th ∷ ths) zero (suc i) = ground arith
step_at-left c (th ∷ ths) (suc j) zero = ground arith
step_at-left c (th ∷ ths) (suc j) (suc i) = ground (arith, step_at-left c ths j i)

run-left :
    (c : InMemoryNonceCache) (ths : List Thread) (is : List ℕ) (i : ℕ)
    → left i (run c ths is).1 ≤ left i ths - turns i is
unfolding run turns
run-left c ths [] i = omega arith
run-left c ths (j ∷ is) i =
    let (c', ths') = step_at c ths j in
    ground (arith, run-left (step_at c ths j).0 (step_at c ths j).1 is i, step_at-left c ths j i)

left-bound : (ths : List Thread) (i : ℕ) → (left i ths ≡ 0) ⊎ ((left i ths ≤ 2) × (i < length ths))
unfolding left steps_left
left-bound [] i = inl refl
left-bound (th ∷ ths) zero = inr (ground arith)
left-bound (th ∷ ths) (suc i) = elim (left-bound ths i) [
  | inl e ↦ inl e
  | inr (le, lt) ↦ inr (le, omega arith)
]

left-IsDone : (ths : List Thread) → All IsCheck ths → ((i : ℕ) → left i ths ≡ 0) → All IsDone ths
unfolding left steps_left
left-IsDone [] h none_left = tt
left-IsDone (checking k t ∷ ths) h none_left = ground (arith, none_left 0)
left-IsDone (storing k t ∷ ths) h none_left = ground (arith, none_left 0)
left-IsDone (checked k t r ∷ ths) h none_left = (tt, left-IsDone ths h.1 (λ i. none_left (suc i)))
left-IsDone (purging t ∷ ths) h none_left = absurd h.0
left-IsDone (ranging t ks ∷ ths) h none_left = absurd h.0
left-IsDone (deleting t j ks ∷ ths) h none_left = absurd h.0
left-IsDone (purged t ∷ ths) h none_left = absurd h.0

pub fair-IsDone :
    (c : InMemoryNonceCache) (ths : List Thread) (schedule : List ℕ)
    → All IsCheck (run c ths schedule).1
    → ((i : ℕ) → i < length ths → 2 ≤ turns i schedule)
    → All IsDone (run c ths schedule).1
fair-IsDone c ths schedule h fair = left-IsDone (run c ths schedule).1 h none_left
  where
    none_left : (i : ℕ) → left i (run c ths schedule).1 ≡ 0
    none_left i = elim (left-bound ths i) [
      | inl e ↦ omega (arith, run-left c ths schedule i)
      | inr (le, lt) ↦ omega (arith, run-left c ths schedule i, fair i lt)
    ]
