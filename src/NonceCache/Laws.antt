-- ===== src/NonceCache/Laws.antt =====
-- What the methods of the nonce cache (uma/nonce_cache.go) do to its entries.
use uma_go_sdk.Base.{
  [], ◌∷◌, Option, none, some, Bool, true, false, ◌||◌, ◌&&◌, ◌≡◌, ◌≢◌, ◌⊎◌, inl, inr, refl, arith,
  Bytes, eqb, eqb_iff, if◌then◌else◌, ◌∙◌, Bool-cases,
}
use uma_go_sdk.Go.Result.{Error, ok, err, timestamp_too_old, nonce_already_used}
use uma_go_sdk.Go.Time.{Time, before}
use uma_go_sdk.Go.Map.{
  Map, lookup, delete, NodupKeys, lookup-insert, lookup-delete, insert-NodupKeys, delete-NodupKeys,
}
use uma_go_sdk.NonceCache.{
  InMemoryNonceCache, check_and_save_nonce, range_delete, purge_nonces_older_than,
}

abbrev pub IsWellFormed : InMemoryNonceCache → Type 0
IsWellFormed c = NodupKeys c.cache

-- What is left of an entry when all that is older than `t` goes.
abbrev pub younger : Time → Option Time → Option Time
younger t none = none
younger t (some s) = if before s t then none else some s

has_older : Time → Bytes → Map Time → Bool
has_older t k [] = false
has_older t k ((j, s) ∷ m) = (eqb j k && before s t) || has_older t k m

lookup-range_delete :
    (t : Time) (k : Bytes) (entries m : Map Time)
    → lookup k (range_delete t entries m) ≡ (if has_older t k entries then none else lookup k m)
unfolding range_delete has_older
lookup-range_delete t k [] m = refl
lookup-range_delete t k ((j, s) ∷ entries) m = ground (
  arith,
  lookup-range_delete t k entries (if before s t then delete j m else m),
  lookup-delete j k m,
)

has_older-none : (t : Time) (k : Bytes) (m : Map Time) → lookup k m ≡ none → has_older t k m ≡ false
unfolding has_older lookup
has_older-none t k [] h = refl
has_older-none t k ((j, s) ∷ m) h = ground (arith, has_older-none t k m)

younger-lookup :
    (t : Time) (k : Bytes) (m : Map Time)
    → NodupKeys m
    → (if has_older t k m then none else lookup k m) ≡ younger t (lookup k m)
unfolding has_older lookup
younger-lookup t k [] h = refl
younger-lookup t k ((j, s) ∷ m) h =
    ground (arith, eqb_iff j k, has_older-none t j m, younger-lookup t k m h.1)

-- A purge removes the entries that are older than its argument, and no others.
pub lookup-purge :
    (c : InMemoryNonceCache) (t : Time) (k : Bytes)
    → IsWellFormed c
    → lookup k (purge_nonces_older_than c t).cache ≡ younger t (lookup k c.cache)
unfolding purge_nonces_older_than
lookup-purge c t k h = lookup-range_delete t k c.cache c.cache ∙ younger-lookup t k c.cache h
  where
    open c use {cache}

pub oldest-purge :
    (c : InMemoryNonceCache) (t : Time) → (purge_nonces_older_than c t).oldest_valid_timestamp ≡ t
unfolding purge_nonces_older_than
oldest-purge c t = refl

range_delete-NodupKeys :
    (t : Time) (entries m : Map Time) → NodupKeys m → NodupKeys (range_delete t entries m)
unfolding range_delete
range_delete-NodupKeys t [] m h = h
range_delete-NodupKeys t ((j, s) ∷ entries) m h =
    range_delete-NodupKeys t entries (if before s t then delete j m else m)
      (ground (arith, delete-NodupKeys j m))

pub purge-IsWellFormed :
    (c : InMemoryNonceCache) (t : Time)
    → IsWellFormed c
    → IsWellFormed (purge_nonces_older_than c t)
unfolding purge_nonces_older_than
purge-IsWellFormed c t h = range_delete-NodupKeys t c.cache c.cache h

pub check-IsWellFormed :
    (c : InMemoryNonceCache) (k : Bytes) (t : Time)
    → IsWellFormed c
    → IsWellFormed (check_and_save_nonce c k t).1
unfolding check_and_save_nonce
check-IsWellFormed c k t h = ground (arith, insert-NodupKeys k t c.cache)

module _ (c : InMemoryNonceCache) (k : Bytes) (t : Time) where
  -- An accepted nonce was not stored and its timestamp not too old; it is stored under that
  -- timestamp, and nothing else changes.
  pub check-accepts :
      (check_and_save_nonce c k t).0 ≡ ok tt
      → (before t c.oldest_valid_timestamp ≡ false)
        × (lookup k c.cache ≡ none)
        × ((j : Bytes)
            → lookup j (check_and_save_nonce c k t).1.cache
              ≡ (if eqb k j then some t else lookup j c.cache))
        × ((check_and_save_nonce c k t).1.oldest_valid_timestamp ≡ c.oldest_valid_timestamp)
  unfolding check_and_save_nonce
  check-accepts h =
      (ground arith, ground arith, λ j. ground (arith, lookup-insert k j t c.cache), ground arith)

  -- A refused nonce has a timestamp that is too old or is stored already, and changes nothing.
  pub check-refuses :
      (e : Error)
      → (check_and_save_nonce c k t).0 ≡ err e
      → ((check_and_save_nonce c k t).1 ≡ c)
        × (((e ≡ timestamp_too_old) × (before t c.oldest_valid_timestamp ≡ true))
            ⊎ ((e ≡ nonce_already_used) × (lookup k c.cache ≢ none)))
  unfolding check_and_save_nonce
  check-refuses e h = elim (Bool-cases (before t c.oldest_valid_timestamp)) [
    | inl old ↦ (ground arith, inl (ground arith))
    | inr new ↦ (ground arith, inr (ground arith))
  ]
