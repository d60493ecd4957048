-- ===== src/PublicKeyCache/Laws.antt =====
-- Operations on the cache of uma/public_key_cache.go and the fetches after them.
use uma_go_sdk.Base.{
  Option, none, some, true, false, ◌≡◌, refl, arith, Bytes, eqb_refl, Option-cases, inl, inr,
  if◌then◌else◌,
}
use uma_go_sdk.Go.Time.{Time, unix, before, before_trans}
use uma_go_sdk.Go.Map.{lookup, lookup-insert}
use uma_go_sdk.Protocol.PubKeyResponse.{PubKeyResponse}
use uma_go_sdk.PublicKeyCache.{
  InMemoryPublicKeyCache, is_expired, entry_at, fetch_public_key_for_vasp, add_public_key_for_vasp,
  remove_public_key_for_vasp, clear, in_memory_keys,
}
use uma_go_sdk.PublicKeyCache.Interface.{PublicKeyCache}

-- The operations that change the cache.
pub data Change : Type 0 where
  add : Bytes → Option PubKeyResponse → Change
  remove : Bytes → Change
  clear_all : Change

unfoldable pub change : InMemoryPublicKeyCache → Change → InMemoryPublicKeyCache
change c (add d r) = add_public_key_for_vasp c d r
change c (remove d) = remove_public_key_for_vasp c d
change c clear_all = clear c

-- An added key is what the cache has, until it expires.
added_key :
    (now : Time) (c : InMemoryPublicKeyCache) (d : Bytes) (key : PubKeyResponse)
    → fetch_public_key_for_vasp now (add_public_key_for_vasp c d (some key)) d
      ≡ (if is_expired now key then none else some key)
unfolding fetch_public_key_for_vasp add_public_key_for_vasp
added_key now c d key = rw (lookup-insert d d (some key) c.cache) (rw (eqb_refl d) refl)

-- A cache in which a key that was added is found until it expires.
pub record KeepsKeys {S : Type 0} (K : PublicKeyCache S) : Type 0 where
  pub fetch_added :
      (now : Time) (c : S) (d : Bytes) (key : PubKeyResponse)
      → is_expired now key ≡ false
      → K.fetch_key_for_vasp now (K.add_key_for_vasp c d (some key)) d ≡ some key

pub in_memory-KeepsKeys : KeepsKeys in_memory_keys
in_memory-KeepsKeys = record {
  fetch_added = λ now c d key alive. rw (added_key now c d key) (rw alive refl);
}

-- A fetched key has not expired, and at any other moment it is fetched exactly when it has not
-- expired by then.
pub fetch_until_expiry :
    (now later : Time) (c : InMemoryPublicKeyCache) (d : Bytes) (r : PubKeyResponse)
    → fetch_public_key_for_vasp now c d ≡ some r
    → (is_expired now r ≡ false)
      × (fetch_public_key_for_vasp later c d ≡ (if is_expired later r then none else some r))
unfolding fetch_public_key_for_vasp
fetch_until_expiry now later c d r h = (ground arith, ground arith)

is_expired_mono :
    (now later : Time) (r : PubKeyResponse)
    → before later now ≡ false
    → is_expired now r ≡ true
    → is_expired later r ≡ true
unfolding is_expired
is_expired_mono now later r h e = elim (Option-cases r.expiration_timestamp) [
  | inl q ↦ ground arith
  | inr (s, q) ↦ ground (arith, before_trans (unix s) now later)
]

-- What is not fetched at one moment is not fetched at any later one, if nothing is added.
pub fetch_none_mono :
    (now later : Time) (c : InMemoryPublicKeyCache) (d : Bytes)
    → before later now ≡ false
    → fetch_public_key_for_vasp now c d ≡ none
    → fetch_public_key_for_vasp later c d ≡ none
unfolding fetch_public_key_for_vasp
fetch_none_mono now later c d h e = elim (Option-cases (entry_at (lookup d c.cache))) [
  | inl q ↦ rw q
  | inr (r, q) ↦ ground (arith, is_expired_mono now later r)
]
