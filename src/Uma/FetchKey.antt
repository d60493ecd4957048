-- ===== src/Uma/FetchKey.antt =====
-- FetchPublicKeyForVasp of uma/uma.go, over any cache of keys. The HTTP client is a parameter: it
-- gets a URL; an answer has a status, a body that may fail to be read, and a body that may fail to
-- be closed.
pub mod Laws
use uma_go_sdk.Base.{Bool, true, false, Option, none, some, ◌++◌, Bytes, codes, if◌then◌else◌}
use uma_go_sdk.Base.Int.{ℤ, pos, eqb_ℤ}
use uma_go_sdk.Go.Result.{Result, ok, err, panic, ◌>>=◌, guard, ◌>>◌, invalid_vasp_response}
use uma_go_sdk.Go.Time.{Time}
use uma_go_sdk.Go.Json.{JsonLib}
use uma_go_sdk.Crypto.{Crypto}
use uma_go_sdk.Utils.Url.{is_domain_localhost}
use uma_go_sdk.Protocol.PubKeyResponse.{PubKeyResponse}
use uma_go_sdk.Protocol.PubKeyResponse.Json.{unmarshal_pub_key_response}
use uma_go_sdk.PublicKeyCache.Interface.{PublicKeyCache}

pub record HttpResponse : Type 0 where
  pub status_code : ℤ
  pub body : Result Bytes
  pub closes : Bool

unfoldable pub key_url : Bytes → Bytes
key_url vasp_domain =
    (if is_domain_localhost vasp_domain then codes "http://" else codes "https://")
    ++ (vasp_domain ++ codes "/.well-known/lnurlpubkey")

module _ (crypto : Crypto) (lib : JsonLib) where
  -- What the answer says, if it is a key.
  unfoldable pub read_key : HttpResponse → Result PubKeyResponse
  read_key resp = do
    guard (eqb_ℤ resp.status_code (pos 200)) invalid_vasp_response
    bytes ← resp.body
    document ← lib.read bytes
    unmarshal_pub_key_response crypto document

module _ (crypto : Crypto) (lib : JsonLib) {S : Type 0} ⦃K : PublicKeyCache S⦄ where
  -- A key that is read is cached.
  cache_key : S → Bytes → Result PubKeyResponse → Result PubKeyResponse × S
  cache_key cache vasp_domain (ok key) = (ok key, K.add_key_for_vasp cache vasp_domain (some key))
  cache_key cache vasp_domain (err problem) = (err problem, cache)
  cache_key cache vasp_domain panic = (panic, cache)

  -- The deferred Body.Close: it panics when it fails, after everything else.
  closing : Bool → Result PubKeyResponse × S → Result PubKeyResponse × S
  closing true (result, cache) = (result, cache)
  closing false (result, cache) = (panic, cache)

  on_response : S → Bytes → Result HttpResponse → Result PubKeyResponse × S
  unfolding cache_key closing
  on_response cache vasp_domain (ok resp) =
      closing resp.closes (cache_key cache vasp_domain (read_key crypto lib resp))
  on_response cache vasp_domain (err problem) = (err problem, cache)
  on_response cache vasp_domain panic = (panic, cache)

  from_cache :
      S → Bytes → (Bytes → Result HttpResponse) → Option PubKeyResponse → Result PubKeyResponse × S
  unfolding on_response
  from_cache cache vasp_domain http_get (some key) = (ok key, cache)
  from_cache cache vasp_domain http_get none =
      on_response cache vasp_domain (http_get (key_url vasp_domain))

  unfoldable pub fetch_key :
      (Bytes → Result HttpResponse) → Time → Bytes → S → Result PubKeyResponse × S
  unfolding from_cache
  fetch_key http_get now vasp_domain cache =
      from_cache cache vasp_domain http_get (K.fetch_key_for_vasp now cache vasp_domain)
