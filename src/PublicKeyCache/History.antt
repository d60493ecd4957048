-- ===== src/PublicKeyCache/History.antt =====
-- What a fetch from the cache of uma/public_key_cache.go returns, by the calls made before it.
use uma_go_sdk.Base.{
  Option, none, some, List, [], ◌∷◌, false, ◌≡◌, ◌⊎◌, ◌↔◌, refl, arith, Bytes, eqb, Option-cases,
  Bool-cases, ap, inl, inr, if◌then◌else◌,
}
use uma_go_sdk.Base.Int.{ℤ, pos, negsuc, ◌<ℤ◌}
use uma_go_sdk.Go.Time.{Time, unix, before}
use uma_go_sdk.Go.Map.{lookup, lookup-insert, lookup-delete}
use uma_go_sdk.Protocol.PubKeyResponse.{PubKeyResponse}
use uma_go_sdk.PublicKeyCache.{
  InMemoryPublicKeyCache, new_in_memory_public_key_cache, is_expired, entry_at, unless_expired,
  fetch_public_key_for_vasp, add_public_key_for_vasp, remove_public_key_for_vasp, clear,
}
use uma_go_sdk.PublicKeyCache.Laws.{Change, add, remove, clear_all, change}

-- A new cache after these changes, the last of which is the first of the list.
pub after : List Change → InMemoryPublicKeyCache
after [] = new_in_memory_public_key_cache
after (ch ∷ changes) = change (after changes) ch

-- The key that was added last for a domain, unless it was removed or all were since.
pub last_added : List Change → Bytes → Option PubKeyResponse
last_added [] d = none
last_added (add j r ∷ changes) d = if eqb j d then r else last_added changes d
last_added (remove j ∷ changes) d = if eqb j d then none else last_added changes d
last_added (clear_all ∷ changes) d = none

-- The moment `now` is not after the start of a second, counted as `Time` counts them.
abbrev pub IsUpTo : Time → ℤ → Type 0
IsUpTo now second = (now.ext <ℤ second) ⊎ ((now.ext ≡ second) × (now.nsec ≡ 0))

-- The key has no expiration, or its expiration is not in the past.
abbrev pub IsFresh : Time → PubKeyResponse → Type 0
IsFresh now r = (s : ℤ) → r.expiration_timestamp ≡ some s → IsUpTo now (unix s).ext

entry-after :
    (changes : List Change) (d : Bytes)
    → entry_at (lookup d (after changes).cache) ≡ last_added changes d
unfolding entry_at after last_added change add_public_key_for_vasp remove_public_key_for_vasp clear
    new_in_memory_public_key_cache lookup
entry-after [] d = refl
entry-after (add j r ∷ changes) d =
    ground (arith, lookup-insert j d r (after changes).cache, entry-after changes d)
entry-after (remove j ∷ changes) d =
    ground (arith, lookup-delete j d (after changes).cache, entry-after changes d)
entry-after (clear_all ∷ changes) d = refl

ℤ-cases : (a b : ℤ) → (a <ℤ b) ⊎ ((a ≡ b) ⊎ (b <ℤ a))
ℤ-cases (pos m) (pos n) = ground arith
ℤ-cases (pos m) (negsuc n) = ground arith
ℤ-cases (negsuc m) (pos n) = ground arith
ℤ-cases (negsuc m) (negsuc n) = ground arith

before-IsUpTo : (now u : Time) → u.nsec ≡ 0 → (before u now ≡ false) ↔ IsUpTo now u.ext
unfolding before
before-IsUpTo now u h = elim (ℤ-cases now.ext u.ext) [
  | inl less ↦ (λ e. inl less, λ e. ground arith)
  | inr (inl same) ↦ (λ e. inr (same, ground arith), λ e. ground arith)
  | inr (inr more) ↦ (λ e. absurd (ground arith), λ e. absurd (ground arith))
]

alive-IsFresh : (now : Time) (r : PubKeyResponse) → (is_expired now r ≡ false) ↔ IsFresh now r
unfolding is_expired unix
alive-IsFresh now r = elim (Option-cases r.expiration_timestamp) [
  | inl q ↦ (λ e s p. cc, λ h. rw q refl)
  | inr (t, q) ↦ (
    λ e s p. (before-IsUpTo now (unix s) refl).0 (rw p at e),
    λ h. rw q ((before-IsUpTo now (unix t) refl).1 (h t q)),
  )
]

alive_key :
    (now : Time) (o : Option PubKeyResponse) (r : PubKeyResponse)
    → (unless_expired now o ≡ some r) ↔ ((o ≡ some r) × (is_expired now r ≡ false))
alive_key now none r = (λ e. cc, λ h. cc)
alive_key now (some q) r = elim (Bool-cases (is_expired now q)) [
  | inl e ↦ (λ h. cc (rw e at h), λ h. let same : q ≡ r = cc in cc)
  | inr e ↦ (
    λ h. let same : q ≡ r = (let h' = rw e at h in cc) in (ap some same, rw (← same) e),
    λ h. rw e h.0,
  )
]

-- A fetch returns a key exactly when it is the one that was added last for the domain, neither removed
-- nor cleared since, and its expiration, if it has one, is not before the moment of the fetch.
pub fetched_iff :
    (now : Time) (changes : List Change) (d : Bytes) (r : PubKeyResponse)
    → (fetch_public_key_for_vasp now (after changes) d ≡ some r)
      ↔ ((last_added changes d ≡ some r) × IsFresh now r)
unfolding fetch_public_key_for_vasp
fetched_iff now changes d r =
    let alive = alive-IsFresh now r in
    let fetched = alive_key now (last_added changes d) r in
    rw (entry-after changes d) (
      λ e. let (added, fresh) = fetched.0 e in (added, alive.0 fresh),
      λ h. fetched.1 (h.0, alive.1 h.1),
    )
