-- ===== src/PublicKeyCache/Tests.antt =====
-- The key cache of uma/public_key_cache.go at concrete inputs.
use uma_go_sdk.Base.{none, some, List, [], ◌∷◌, ◌↔◌, ◌≡◌, Bytes, codes}
use uma_go_sdk.Base.Int.{pos}
use uma_go_sdk.Go.Time.{unix}
use uma_go_sdk.Protocol.PubKeyResponse.{PubKeyResponse}
use uma_go_sdk.PublicKeyCache.{fetch_public_key_for_vasp}
use uma_go_sdk.PublicKeyCache.Laws.{Change, add, remove}
use uma_go_sdk.PublicKeyCache.History.{after, last_added, IsFresh, fetched_iff}

abbrev key : PubKeyResponse
key = record {
  signing_cert_chain = none;
  encryption_cert_chain = none;
  signing_pub_key_hex = some (codes "04ab");
  encryption_pub_key_hex = some (codes "04cd");
  expiration_timestamp = some (pos 100);
}

abbrev vasp : Bytes
vasp = codes "vasp1.com"

-- A key that is removed, then added, and a key for another domain after it.
abbrev changes : List Change
changes = add (codes "b.com") (some key) ∷ add vasp (some key) ∷ remove vasp ∷ []

fetched_iff_example :
    (fetch_public_key_for_vasp (unix (pos 50)) (after changes) vasp ≡ some key)
    ↔ ((last_added changes vasp ≡ some key) × IsFresh (unix (pos 50)) key)
fetched_iff_example = fetched_iff (unix (pos 50)) changes vasp key
