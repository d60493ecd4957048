-- ===== src/Uma/Lnurlp/UrlRoundTrip.antt =====
-- The first request of uma/uma.go and uma/protocol/lnurl_request.go through its URL and back.
use uma_go_sdk.Base.{
  Bool, true, false, ◌≡◌, ◌≢◌, refl, ap, ℕ, arith, some, [], ◌∷◌, ◌++◌, Bytes, codes, eqb, Lacks,
}
use uma_go_sdk.Base.Int.{ℤ, wrap_i64-IsInt64}
use uma_go_sdk.Protocol.LnurlpRequest.Encoding.{whole_request, whole_url}
use uma_go_sdk.Go.Result.{ok}
use uma_go_sdk.Go.Strings.{split, to_lower, split-Lacks}
use uma_go_sdk.Go.Strconv.{format_int, parse_int}
use uma_go_sdk.Go.Strconv.RoundTrip.{parse_int-format_int}
use uma_go_sdk.Go.Time.{Time, unix, unix_seconds}
use uma_go_sdk.Go.Map.{lookup}
use uma_go_sdk.Go.Url.{get}
use uma_go_sdk.Version.{is_version_supported}
use uma_go_sdk.Protocol.LnurlpRequest.{format_bool}
use uma_go_sdk.Uma.Lnurlp.{
  is_username, is_username_char, all_username_chars, nil_if_empty, check_version, parse_username,
  parse_timestamp, parse_lnurlp_request, parse_lnurlp_request_with_receiver_domain,
}

username-Lacks :
    (sep : ℕ) (s : Bytes) → is_username_char sep ≡ false → all_username_chars s ≡ true → Lacks sep s
unfolding all_username_chars
username-Lacks sep [] h k = tt
username-Lacks sep (c ∷ s) h k =
    (λ e. ground (arith, ap is_username_char e), username-Lacks sep s h (ground arith))

-- A user name that `ParseLnurlpRequest` accepts.
abbrev pub IsUsername : Bytes → Type 0
IsUsername s = is_username s ≡ true

is_username-all : (s : Bytes) → is_username s ≡ true → all_username_chars s ≡ true
unfolding is_username
is_username-all [] h = cc
is_username-all (c ∷ s) h = h

pub username-Lacks-at : (s : Bytes) → IsUsername s → Lacks b'@' s
unfolding is_username_char
username-Lacks-at s h = username-Lacks b'@' s refl (is_username-all s h)

parse_username_path :
    (user : Bytes)
    → is_username user ≡ true
    → parse_username (split b'/' (codes "/.well-known/lnurlp/" ++ user)) ≡ ok user
unfolding split parse_username eqb is_username_char
parse_username_path user h =
    rw (split-Lacks b'/' user (username-Lacks b'/' user refl (is_username-all user h))) (rw h refl)

parse_timestamp-some :
    (s : Bytes) (i : ℤ) → parse_int s ≡ some i → parse_timestamp s ≡ ok (some (unix i))
unfolding parse_timestamp parse_int
parse_timestamp-some [] i h = cc
parse_timestamp-some (c ∷ s) i h = rw h refl

parse_timestamp_format :
    (t : Time) → parse_timestamp (format_int (unix_seconds t)) ≡ ok (some (unix (unix_seconds t)))
unfolding unix_seconds
parse_timestamp_format t =
    parse_timestamp-some (format_int (unix_seconds t)) (unix_seconds t)
      (parse_int-format_int (unix_seconds t) (wrap_i64-IsInt64 _))

check_version_supported : (s : Bytes) → is_version_supported s ≡ true → check_version s ≡ ok tt
unfolding check_version
check_version_supported [] h = refl
check_version_supported (c ∷ s) h = rw h refl

nil_if_empty-some : (s : Bytes) → s ≢ [] → nil_if_empty s ≡ some s
unfolding nil_if_empty
nil_if_empty-some [] h = ground arith
nil_if_empty-some (c ∷ s) h = refl

lower_bool : (b : Bool) → eqb (to_lower (format_bool b)) (codes "true") ≡ b
unfolding to_lower eqb
lower_bool true = refl
lower_bool false = refl

module _ (user domain nonce signature vasp_domain version : Bytes) (subject : Bool)
    (timestamp : Time) where
  pub parse_whole :
      IsUsername user
      → nonce ≢ []
      → signature ≢ []
      → vasp_domain ≢ []
      → is_version_supported version ≡ true
      → version ≢ []
      → parse_lnurlp_request
          (whole_url user domain nonce signature vasp_domain version subject timestamp)
        ≡ ok (
            whole_request user domain nonce signature vasp_domain version subject
              (unix (unix_seconds timestamp)))
  unfolding parse_lnurlp_request parse_lnurlp_request_with_receiver_domain get lookup eqb
  parse_whole hu hn hs hd hv hw = rw (
    parse_timestamp_format timestamp,
    check_version_supported version hv,
    parse_username_path user hu,
    nil_if_empty-some nonce hn,
    nil_if_empty-some signature hs,
    nil_if_empty-some vasp_domain hd,
    nil_if_empty-some version hw,
    lower_bool subject,
  )
