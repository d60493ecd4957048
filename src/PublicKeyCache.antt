-- ===== src/PublicKeyCache.antt =====
-- uma/public_key_cache.go: the in-memory cache of public keys. The map's values are pointers, which
-- may be nil; `time.Now()` is the argument `now`.
pub mod Interface
pub mod Laws
pub mod History
mod Tests
use uma_go_sdk.Base.{Option, none, some, [], Bool, true, false, Bytes, if◌then◌else◌}
use uma_go_sdk.Go.Time.{Time, unix, before}
use uma_go_sdk.Go.Map.{Map, lookup, insert, delete}
use uma_go_sdk.Protocol.PubKeyResponse.{PubKeyResponse}
use uma_go_sdk.PublicKeyCache.Interface.{PublicKeyCache}

pub record InMemoryPublicKeyCache : Type 0 where
  pub cache : Map (Option PubKeyResponse)

unfoldable pub new_in_memory_public_key_cache : InMemoryPublicKeyCache
new_in_memory_public_key_cache = record { cache = [] }

unfoldable pub is_expired : Time → PubKeyResponse → Bool
is_expired now entry = elim entry.expiration_timestamp [
  | none ↦ false
  | some s ↦ before (unix s) now
]

-- c.cache[vaspDomain]: a key that is missing gives nil.
entry_at : Option (Option PubKeyResponse) → Option PubKeyResponse
entry_at none = none
entry_at (some entry) = entry

abbrev pub unless_expired : Time → Option PubKeyResponse → Option PubKeyResponse
unless_expired now none = none
unless_expired now (some entry) = if is_expired now entry then none else some entry

unfoldable pub fetch_public_key_for_vasp :
    Time → InMemoryPublicKeyCache → Bytes → Option PubKeyResponse
unfolding entry_at
fetch_public_key_for_vasp now c vasp_domain =
    unless_expired now (entry_at (lookup vasp_domain c.cache))

unfoldable pub add_public_key_for_vasp :
    InMemoryPublicKeyCache → Bytes → Option PubKeyResponse → InMemoryPublicKeyCache
add_public_key_for_vasp c vasp_domain pub_key = record {
  cache = insert vasp_domain pub_key c.cache;
}

unfoldable pub remove_public_key_for_vasp : InMemoryPublicKeyCache → Bytes → InMemoryPublicKeyCache
remove_public_key_for_vasp c vasp_domain = record { cache = delete vasp_domain c.cache }

unfoldable pub clear : InMemoryPublicKeyCache → InMemoryPublicKeyCache
clear c = record { cache = [] }

instance abbrev pub in_memory_keys : PublicKeyCache InMemoryPublicKeyCache
in_memory_keys = record {
  fetch_key_for_vasp = fetch_public_key_for_vasp;
  add_key_for_vasp = add_public_key_for_vasp;
  remove_key_for_vasp = remove_public_key_for_vasp;
  clear_keys = clear;
}
