-- ===== src/Uma/Lnurlp.antt =====
-- The first request of uma/uma.go: its signed URL, and its reading from a URL.
pub mod UrlRoundTrip
use uma_go_sdk.Base.{
  Bool, true, false, not, ◌&&◌, ◌||◌, Option, none, some, List, [], ◌∷◌, ◌++◌, Bytes, codes, eqb,
  ◌==◌, leb, ℕ, if◌then◌else◌,
}
use uma_go_sdk.Base.Int.{ℤ}
use uma_go_sdk.Go.Result.{
  Result, ok, err, panic, ◌>>=◌, ◌>>◌, guard, or_error, invalid_timestamp, invalid_request_path,
  invalid_username, unsupported_version, invalid_uma_address,
}
use uma_go_sdk.Go.Strings.{split, to_lower}
use uma_go_sdk.Go.Strconv.{parse_int}
use uma_go_sdk.Go.Time.{Time, unix}
use uma_go_sdk.Go.Map.{Map}
use uma_go_sdk.Go.Url.{Url, get}
use uma_go_sdk.Crypto.{Crypto}
use uma_go_sdk.Version.{uma_protocol_version, is_version_supported, get_supported_major_versions}
use uma_go_sdk.Protocol.LnurlpRequest.{
  LnurlpRequest, is_uma_request, signable_payload, encode_to_url,
}
use uma_go_sdk.Uma.Signing.{generate_nonce, sign_payload}

abbrev pub or_default : Option Bytes → Bytes → Bytes
or_default none s = s
or_default (some t) s = t

-- The request before it is signed.
unfoldable pub unsigned_request : Bytes → Bytes → Bool → Option Bytes → Time → Bytes → LnurlpRequest
unsigned_request receiver_address sender_vasp_domain is_subject override now nonce = record {
  receiver_address = receiver_address;
  nonce = some nonce;
  signature = none;
  is_subject_to_travel_rule = some is_subject;
  vasp_domain = some sender_vasp_domain;
  timestamp = some now;
  uma_version = some (or_default override uma_protocol_version);
}

-- The first three arguments are the environment: the nonce that is drawn, the random bytes of the
-- signature, and the time.
unfoldable pub get_signed_lnurlp_request_url :
    (crypto : Crypto)
    → Result ℕ
    → Bytes
    → Time
    → Bytes
    → Bytes
    → Bytes
    → Bool
    → Option Bytes
    → Result Url
get_signed_lnurlp_request_url crypto draw random now private_key receiver_address domain is_subject
      override =
    do
      nonce ← generate_nonce draw
      payload ←
          signable_payload (unsigned_request receiver_address domain is_subject override now nonce)
      signature ← sign_payload crypto random payload private_key
      encode_to_url
          (record (unsigned_request receiver_address domain is_subject override now nonce) {
            signature = some signature;
          })

-- The timestamp of the query: none when it is empty.
parse_timestamp : Bytes → Result (Option Time)
parse_timestamp [] = ok none
parse_timestamp (c ∷ s) = do
  seconds ← or_error (parse_int (c ∷ s)) invalid_timestamp
  ok (some (unix seconds))

-- A character of the class [$a-zA-Z0-9._\-+].
unfoldable pub is_username_char : ℕ → Bool
is_username_char c =
    (c == b'$')
    || (leb b'a' c && leb c b'z')
    || (leb b'A' c && leb c b'Z')
    || (leb b'0' c && leb c b'9')
    || (c == b'.')
    || (c == b'_')
    || (c == b'-')
    || (c == b'+')

unfoldable pub all_username_chars : Bytes → Bool
all_username_chars [] = true
all_username_chars (c ∷ s) = is_username_char c && all_username_chars s

-- The regular expression: one character of the class or more.
unfoldable pub is_username : Bytes → Bool
is_username [] = false
is_username (c ∷ s) = all_username_chars (c ∷ s)

-- The user name of a path of four parts.
parse_username : List Bytes → Result Bytes
unfolding is_username
parse_username (_ ∷ well_known ∷ lnurlp ∷ username ∷ []) = do
  guard (eqb well_known (codes ".well-known") && eqb lnurlp (codes "lnurlp")) invalid_request_path
  guard (is_username username) invalid_username
  ok username
parse_username _ = err invalid_request_path

unfoldable pub nil_if_empty : Bytes → Option Bytes
nil_if_empty [] = none
nil_if_empty (c ∷ s) = some (c ∷ s)

check_version : Bytes → Result (Unit {0})
check_version [] = ok tt
check_version (c ∷ s) =
    guard (is_version_supported (c ∷ s)) (unsupported_version (c ∷ s) get_supported_major_versions)

unfoldable pub parse_lnurlp_request_with_receiver_domain : Url → Bytes → Result LnurlpRequest
unfolding parse_timestamp check_version parse_username
parse_lnurlp_request_with_receiver_domain url receiver_domain = do
  timestamp ← parse_timestamp (get url.query (codes "timestamp"))
  check_version (get url.query (codes "umaVersion"))
  username ← parse_username (split b'/' url.path)
  ok (record {
    receiver_address = username ++ b'@' ∷ receiver_domain;
    vasp_domain = nil_if_empty (get url.query (codes "vaspDomain"));
    uma_version = nil_if_empty (get url.query (codes "umaVersion"));
    signature = nil_if_empty (get url.query (codes "signature"));
    nonce = nil_if_empty (get url.query (codes "nonce"));
    timestamp = timestamp;
    is_subject_to_travel_rule =
        some (eqb (to_lower (get url.query (codes "isSubjectToTravelRule"))) (codes "true"));
  })

unfoldable pub parse_lnurlp_request : Url → Result LnurlpRequest
parse_lnurlp_request url = parse_lnurlp_request_with_receiver_domain url url.host

-- Whether a result of parsing is a UMA request; an unsupported version is one.
is_uma_result : Result LnurlpRequest → Bool
is_uma_result (ok q) = is_uma_request q
is_uma_result (err (unsupported_version _ _)) = true
is_uma_result (err _) = false
is_uma_result panic = false

unfoldable pub is_uma_lnurlp_query : Url → Bool
unfolding is_uma_result
is_uma_lnurlp_query url = is_uma_result (parse_lnurlp_request url)

domain_of_parts : List Bytes → Result Bytes
domain_of_parts (user ∷ domain ∷ []) = ok domain
domain_of_parts _ = err invalid_uma_address

unfoldable pub get_vasp_domain_from_uma_address : Bytes → Result Bytes
unfolding domain_of_parts
get_vasp_domain_from_uma_address address = domain_of_parts (split b'@' address)
