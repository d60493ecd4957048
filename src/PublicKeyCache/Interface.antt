-- ===== src/PublicKeyCache/Interface.antt =====
-- The interface PublicKeyCache of uma/public_key_cache.go, which FetchPublicKeyForVasp takes.
use uma_go_sdk.Base.{Option, Bytes}
use uma_go_sdk.Go.Time.{Time}
use uma_go_sdk.Protocol.PubKeyResponse.{PubKeyResponse}

-- The methods of a cache whose state is an `S`. A fetch may read the clock.
pub record PublicKeyCache (S : Type 0) : Type 0 where
  pub fetch_key_for_vasp : Time → S → Bytes → Option PubKeyResponse
  pub add_key_for_vasp : S → Bytes → Option PubKeyResponse → S
  pub remove_key_for_vasp : S → Bytes → S
  pub clear_keys : S → S
