-- ===== src/Uma/EndToEnd.antt =====
-- A signed request from the sender's URL to the receiver's check (uma/uma.go,
-- uma/protocol/lnurl_request.go, uma/nonce_cache.go).
use uma_go_sdk.Base.{
  ℕ, Bool, true, false, ◌≡◌, ◌≢◌, refl, Option, none, some, [], ◌∷◌, ◌++◌, Bytes, Lacks,
}
use uma_go_sdk.Base.Int.{wrap_i64-IsInt64}
use uma_go_sdk.Go.Result.{ok}
use uma_go_sdk.Go.Strconv.{format_uint}
use uma_go_sdk.Go.Strconv.RoundTrip.{format_uint_cons}
use uma_go_sdk.Go.Time.{Time, unix, unix_seconds, unix_seconds-unix, before}
use uma_go_sdk.Go.Map.{lookup}
use uma_go_sdk.Go.Hex.{encode_to_string}
use uma_go_sdk.Go.Url.{Url}
use uma_go_sdk.Crypto.{Crypto, IsKeyPair, IsSigner}
use uma_go_sdk.NonceCache.{in_memory, InMemoryNonceCache}
use uma_go_sdk.Protocol.PubKeyResponse.{PubKeyResponse, signing_pub_key}
use uma_go_sdk.Protocol.LnurlpRequest.{
  is_uma_request, LnurlpRequest, UmaLnurlpRequest, as_uma_request,
}
use uma_go_sdk.Protocol.LnurlpRequest.Encoding.{
  whole_request, whole_url, encode_whole, whole_payload, signable_payload-some, as_uma_whole,
  whole_uma_request,
}
use uma_go_sdk.Version.{uma_protocol_version, is_version_supported}
use uma_go_sdk.Version.Parse.{supported-ne-nil}
use uma_go_sdk.Uma.Signing.{sign_payload, sign_payload_to_bytes, generate_nonce}
use uma_go_sdk.Uma.SigningLaws.{verify-sign_payload}
use uma_go_sdk.Uma.Verify.{verify_uma_lnurlp_query_signature}
use uma_go_sdk.Uma.ReplayLaws.{with_nonce_fresh}
use uma_go_sdk.Uma.Lnurlp.{
  or_default, unsigned_request, get_signed_lnurlp_request_url, parse_lnurlp_request,
}
use uma_go_sdk.Uma.Lnurlp.UrlRoundTrip.{parse_whole, IsUsername, username-Lacks-at}

format_uint-ne-nil : (n : ℕ) → format_uint n ≢ []
format_uint-ne-nil n e = let (d, t, h) = format_uint_cons n in cc

encode_to_string-ne-nil : (s : Bytes) → s ≢ [] → encode_to_string s ≢ []
unfolding encode_to_string
encode_to_string-ne-nil [] h = h
encode_to_string-ne-nil (c ∷ s) h = λ e. cc

module _ (crypto : Crypto) (private_key public_key : Bytes)
    (pair : IsKeyPair crypto private_key public_key) (vasp : PubKeyResponse)
    (has_key : signing_pub_key crypto vasp ≡ ok public_key) (user domain vasp_domain : Bytes)
    (subject : Bool) (override : Option Bytes) (n : ℕ) (random : Bytes) (now : Time) where
  -- The moment that the query carries: `now` in whole seconds.
  abbrev sent_at : Time
  sent_at = unix (unix_seconds now)

  abbrev version : Bytes
  version = or_default override uma_protocol_version

  sent_seconds : unix_seconds sent_at ≡ unix_seconds now
  sent_seconds = unix_seconds-unix (unix_seconds now) (unfold unix_seconds in wrap_i64-IsInt64 _)

  abbrev payload : Bytes
  payload = whole_payload (user ++ b'@' ∷ domain) (format_uint n) now

  signed_url :
      (signature : Bytes)
      → IsUsername user
      → Lacks b'@' domain
      → sign_payload crypto random payload private_key ≡ ok signature
      → get_signed_lnurlp_request_url crypto
          (ok n)
          random
          now
          private_key
          (user ++ b'@' ∷ domain)
          vasp_domain
          subject
          override
        ≡ ok (whole_url user domain (format_uint n) signature vasp_domain version subject now)
  unfolding get_signed_lnurlp_request_url generate_nonce unsigned_request
  signed_url signature hu hd h =
      rw
        (signable_payload-some
          (unsigned_request (user ++ b'@' ∷ domain) vasp_domain subject override now
            (format_uint n))
          (format_uint n) now refl refl)
        (rw h (
          encode_whole user domain (format_uint n) signature vasp_domain version subject now
            (username-Lacks-at user hu) hd))

  received_verified :
      (signature : Bytes) (cache : InMemoryNonceCache)
      → sign_payload crypto random payload private_key ≡ ok signature
      → lookup (format_uint n) cache.cache ≡ none
      → before sent_at cache.oldest_valid_timestamp ≡ false
      → (verify_uma_lnurlp_query_signature crypto
          (whole_uma_request user domain
            (format_uint n)
            signature
            vasp_domain
            version
            subject
            sent_at)
          vasp
          cache).0
        ≡ ok tt
  unfolding verify_uma_lnurlp_query_signature
  received_verified signature cache h fresh young =
      with_nonce_fresh cache (format_uint n) sent_at _ fresh young (
        rw
          (signable_payload-some
            (whole_request user domain (format_uint n) signature vasp_domain version subject
              sent_at)
            (format_uint n) sent_at refl refl)
          (rw sent_seconds (
            verify-sign_payload crypto private_key public_key pair vasp has_key random payload
              signature h)))

  -- A signed request URL is made whenever the private key signs; the receiver parses it, finds in it a
  -- UMA request with the sender's version and nonce, and accepts its signature, if the user name is one
  -- that the parser takes, the domain has no `@`, the domain of the sender's VASP is not empty, the
  -- version is a supported one, the receiver's copy of the sender's keys has the public key of the pair,
  -- and its nonce cache has not seen the nonce and does not find the moment too old.
  pub signed_request_verified :
      (cache : InMemoryNonceCache)
      → IsSigner crypto random private_key
      → IsUsername user
      → Lacks b'@' domain
      → vasp_domain ≢ []
      → is_version_supported version ≡ true
      → lookup (format_uint n) cache.cache ≡ none
      → before sent_at cache.oldest_valid_timestamp ≡ false
      → (url : Url) × (q : LnurlpRequest) × (u : UmaLnurlpRequest) × (get_signed_lnurlp_request_url
            crypto
            (ok n)
            random
            now
            private_key
            (user ++ b'@' ∷ domain)
            vasp_domain
            subject
            override
          ≡ ok url)
        × (parse_lnurlp_request url ≡ ok q)
        × (as_uma_request q ≡ ok (some u))
        × (is_uma_request q ≡ true)
        × (q.uma_version ≡ some version)
        × (u.nonce ≡ format_uint n)
        × ((verify_uma_lnurlp_query_signature crypto u vasp cache).0 ≡ ok tt)
  signed_request_verified cache signer hu hd hv supported fresh young =
      let (s, es) = signer (crypto.sha256 payload) in
      let signed : sign_payload crypto random payload private_key ≡ ok (encode_to_string s) =
        unfold sign_payload sign_payload_to_bytes in rw es refl in
      let signature = encode_to_string s in
      let signature_ne = encode_to_string-ne-nil s (pair random _ s es).1 in
      (
        whole_url user domain (format_uint n) signature vasp_domain version subject now,
        whole_request user domain (format_uint n) signature vasp_domain version subject sent_at,
        whole_uma_request user domain (format_uint n) signature vasp_domain version subject sent_at,
        signed_url signature hu hd signed,
        parse_whole user domain (format_uint n) signature vasp_domain version subject now hu
            (format_uint-ne-nil n) signature_ne hv supported (supported-ne-nil version supported),
        as_uma_whole user domain (format_uint n) signature vasp_domain version subject sent_at,
        unfold is_uma_request in refl,
        refl,
        refl,
        received_verified signature cache signed fresh young,
      )
