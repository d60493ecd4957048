-- ===== src/Uma/FetchKey/Laws.antt =====
-- A key that is fetched over HTTP once and from the cache then (FetchPublicKeyForVasp of uma/uma.go).
use mathlib.Core.Path.{subst}
use uma_go_sdk.Base.{
  Bool, true, false, ◌≡◌, refl, ap, arith, none, some, Bytes, Option-cases, ◌⊎◌, inl, inr,
}
use uma_go_sdk.Base.Int.{pos, eqb_ℤ_iff}
use uma_go_sdk.Go.Result.{Error, Result, ok, err, panic, ok_injective}
use uma_go_sdk.Go.Time.{Time}
use uma_go_sdk.Go.Json.{Json, JsonLib}
use uma_go_sdk.Go.Json.Laws.{IsOptionalInt64}
use uma_go_sdk.Crypto.{Crypto, IsPem}
use uma_go_sdk.Protocol.PubKeyResponse.{PubKeyResponse}
use uma_go_sdk.Protocol.PubKeyResponse.Json.{marshal_pub_key_response, unmarshal_pub_key_response}
use uma_go_sdk.Protocol.PubKeyResponse.Json.RoundTrip.{
  IsPemChain, pub_key_response-unmarshal-marshal,
}
use uma_go_sdk.PublicKeyCache.{is_expired}
use uma_go_sdk.PublicKeyCache.Interface.{PublicKeyCache}
use uma_go_sdk.PublicKeyCache.Laws.{KeepsKeys}
use uma_go_sdk.Uma.FetchKey.{
  HttpResponse, key_url, read_key, cache_key, closing, on_response, from_cache, fetch_key,
}

module _ (crypto : Crypto) (lib : JsonLib) where
  read_key-status :
      (resp : HttpResponse) (key : PubKeyResponse)
      → read_key crypto lib resp ≡ ok key
      → resp.status_code ≡ pos 200
  unfolding read_key
  read_key-status resp key h = ground (arith, eqb_ℤ_iff resp.status_code (pos 200))

module _ (crypto : Crypto) (lib : JsonLib) {S : Type 0} ⦃K : PublicKeyCache S⦄ where
  -- A key that the client has is returned, whatever the network says.
  fetch_key-cached :
      (http_get : Bytes → Result HttpResponse) (now : Time) (vasp_domain : Bytes) (cache : S)
      (key : PubKeyResponse)
      → K.fetch_key_for_vasp now cache vasp_domain ≡ some key
      → fetch_key crypto lib http_get now vasp_domain cache ≡ (ok key, cache)
  unfolding fetch_key
  fetch_key-cached http_get now d cache key h = rw h refl

  -- What an HTTP fetch returns: with no key in the cache, the key of an answer that reads as one.
  fetch_key-read :
      (http_get : Bytes → Result HttpResponse) (now : Time) (vasp_domain : Bytes) (cache : S)
      (resp : HttpResponse) (key : PubKeyResponse)
      → K.fetch_key_for_vasp now cache vasp_domain ≡ none
      → http_get (key_url vasp_domain) ≡ ok resp
      → resp.closes ≡ true
      → read_key crypto lib resp ≡ ok key
      → fetch_key crypto lib http_get now vasp_domain cache
        ≡ (ok key, K.add_key_for_vasp cache vasp_domain (some key))
  unfolding fetch_key
  fetch_key-read http_get now d cache resp key h e c r = simp (h, e, c, r)

  -- The key that another VASP serves is the key that is fetched: if the cache has none, and the VASP
  -- serves, with status 200, what its response is written as, whose chains are encoded certificates or
  -- nil and whose expiration is an int64 or nil, then the first fetch returns that response, and a
  -- later fetch with the cache that is left returns it whatever the network says, if it has not
  -- expired by then and the cache keeps what is added until it expires.
  pub served_key :
      IsPem crypto
      → KeepsKeys K
      → (http_get broken : Bytes → Result HttpResponse) (now later : Time) (vasp_domain : Bytes)
        (cache : S) (resp : HttpResponse) (key : PubKeyResponse) (document : Json) (bytes : Bytes)
      → IsPemChain crypto key.signing_cert_chain
      → IsPemChain crypto key.encryption_cert_chain
      → IsOptionalInt64 key.expiration_timestamp
      → marshal_pub_key_response crypto key ≡ ok document
      → lib.read bytes ≡ ok document
      → http_get (key_url vasp_domain) ≡ ok resp
      → resp.status_code ≡ pos 200
      → resp.body ≡ ok bytes
      → resp.closes ≡ true
      → K.fetch_key_for_vasp now cache vasp_domain ≡ none
      → is_expired later key ≡ false
      → let left = K.add_key_for_vasp cache vasp_domain (some key) in
        (fetch_key crypto lib http_get now vasp_domain cache ≡ (ok key, left))
        × (fetch_key crypto lib broken later vasp_domain left ≡ (ok key, left))
  unfolding read_key
  served_key pem keeps http_get broken now later d cache resp key document bytes signing encryption
        timestamp written read answer status body closes missing alive =
      let same : unmarshal_pub_key_response crypto document ≡ ok key =
        rw⁻¹ (pub_key_response-unmarshal-marshal crypto pem key signing encryption timestamp)
          (rw written refl) in
      (
        fetch_key-read http_get now d cache resp key missing answer closes
            (simp (status, body, read, same)),
        fetch_key-cached broken later d (K.add_key_for_vasp cache d (some key)) key
            (keeps.fetch_added later cache d key alive),
      )

  -- The cache keeps what it had when a fetch returns an error.
  pub fetch_key-err :
      (http_get : Bytes → Result HttpResponse) (now : Time) (vasp_domain : Bytes) (cache : S)
      (problem : Error)
      → (fetch_key crypto lib http_get now vasp_domain cache).0 ≡ err problem
      → (fetch_key crypto lib http_get now vasp_domain cache).1 ≡ cache
  unfolding fetch_key from_cache on_response closing cache_key
  fetch_key-err http_get now d cache problem h = ground arith

  -- What is left of an answer when a key is returned.
  closing_ok :
      (cache : S) (vasp_domain : Bytes) (closes : Bool) (result : Result PubKeyResponse)
      (key : PubKeyResponse)
      → (closing crypto lib closes (cache_key crypto lib cache vasp_domain result)).0 ≡ ok key
      → (result ≡ ok key)
        × ((closing crypto lib closes (cache_key crypto lib cache vasp_domain result)).1
            ≡ K.add_key_for_vasp cache vasp_domain (some key))
  unfolding closing cache_key
  closing_ok cache d false result key h = cc
  closing_ok cache d true (ok k) key h = (cc, rw (ok_injective h) refl)
  closing_ok cache d true (err problem) key h = cc
  closing_ok cache d true panic key h = cc

  -- The answer that a key comes from.
  abbrev Answered : S → Bytes → (Bytes → Result HttpResponse) → PubKeyResponse → S → Type 0
  Answered cache vasp_domain http_get key left =
      (resp : HttpResponse) × (http_get (key_url vasp_domain) ≡ ok resp)
      × (resp.status_code ≡ pos 200)
      × (read_key crypto lib resp ≡ ok key)
      × (left ≡ K.add_key_for_vasp cache vasp_domain (some key))

  on_response-ok :
      (http_get : Bytes → Result HttpResponse) (vasp_domain : Bytes) (cache : S)
      (key : PubKeyResponse) (answer : Result HttpResponse)
      → http_get (key_url vasp_domain) ≡ answer
      → (on_response crypto lib cache vasp_domain answer).0 ≡ ok key
      → Answered cache vasp_domain http_get key (on_response crypto lib cache vasp_domain answer).1
  unfolding on_response
  on_response-ok http_get d cache key (ok resp) e h =
      let (read, left) = closing_ok cache d resp.closes (read_key crypto lib resp) key h in
      (resp, e, read_key-status crypto lib resp key read, read, left)
  on_response-ok http_get d cache key (err problem) e h = cc
  on_response-ok http_get d cache key panic e h = cc

  -- A key that is returned was in the cache, and the cache is as it was, or it was read from an answer
  -- with status 200 to the URL of the domain, and it is added to the cache.
  fetch_key-ok :
      (http_get : Bytes → Result HttpResponse) (now : Time) (vasp_domain : Bytes) (cache : S)
      (key : PubKeyResponse)
      → (fetch_key crypto lib http_get now vasp_domain cache).0 ≡ ok key
      → ((K.fetch_key_for_vasp now cache vasp_domain ≡ some key)
          × ((fetch_key crypto lib http_get now vasp_domain cache).1 ≡ cache))
        ⊎ Answered cache vasp_domain http_get key
            (fetch_key crypto lib http_get now vasp_domain cache).1
  unfolding fetch_key from_cache
  fetch_key-ok http_get now d cache key h = elim (Option-cases (K.fetch_key_for_vasp now cache d)) [
    | inl missing ↦ inr (
        rw missing (
          on_response-ok http_get d cache key (http_get (key_url d)) refl
            (subst (λ c. (from_cache crypto lib cache d http_get c).0 ≡ ok key) missing h)))
    | inr (k, e) ↦
        let same =
          ok_injective (subst (λ c. (from_cache crypto lib cache d http_get c).0 ≡ ok key) e h) in
        inl (rw e (ap (λ k. some k) same), rw e refl)
  ]
