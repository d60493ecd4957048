-- ===== src/Protocol/LnurlpRequest.antt =====
-- uma/protocol/lnurl_request.go.
pub mod Encoding
use uma_go_sdk.Base.{
  Bool, true, false, ◌&&◌, Option, none, some, List, [], ◌∷◌, ◌++◌, Bytes, codes, if◌then◌else◌,
}
use uma_go_sdk.Go.Result.{
  Result, ok, err, ◌>>=◌, deref, invalid_receiver_address, missing_timestamp_or_nonce,
}
use uma_go_sdk.Go.Strings.{split, join}
use uma_go_sdk.Go.Strconv.{format_int}
use uma_go_sdk.Go.Time.{Time, unix_seconds}
use uma_go_sdk.Go.Map.{Map}
use uma_go_sdk.Go.Url.{Url}
use uma_go_sdk.Utils.Url.{is_domain_localhost}

pub record LnurlpRequest : Type 0 where
  pub receiver_address : Bytes
  pub nonce : Option Bytes
  pub signature : Option Bytes
  pub is_subject_to_travel_rule : Option Bool
  pub vasp_domain : Option Bytes
  pub timestamp : Option Time
  pub uma_version : Option Bytes

-- The embedded struct is the first field.
pub record UmaLnurlpRequest : Type 0 where
  pub lnurlp_request : LnurlpRequest
  pub receiver_address : Bytes
  pub nonce : Bytes
  pub signature : Bytes
  pub is_subject_to_travel_rule : Bool
  pub vasp_domain : Bytes
  pub timestamp : Time
  pub uma_version : Bytes

-- p != nil
abbrev pub is_set {ℓ} : {A : Type ℓ} → Option A → Bool
is_set none = false
is_set (some a) = true

-- p != nil && *p
abbrev pub is_true : Option Bool → Bool
is_true none = false
is_true (some b) = b

unfoldable pub is_uma_request : LnurlpRequest → Bool
is_uma_request q =
    is_set q.vasp_domain
    && is_set q.nonce
    && is_set q.signature
    && is_set q.timestamp
    && is_set q.uma_version

-- The struct of `AsUmaRequest`, whose pointers are followed.
uma_request : LnurlpRequest → Result (Option UmaLnurlpRequest)
uma_request q = do
  nonce ← deref q.nonce
  signature ← deref q.signature
  vasp_domain ← deref q.vasp_domain
  timestamp ← deref q.timestamp
  uma_version ← deref q.uma_version
  ok (
      some (record {
        lnurlp_request = q;
        receiver_address = q.receiver_address;
        nonce = nonce;
        signature = signature;
        is_subject_to_travel_rule = is_true q.is_subject_to_travel_rule;
        vasp_domain = vasp_domain;
        timestamp = timestamp;
        uma_version = uma_version;
      }))

unfoldable pub as_uma_request : LnurlpRequest → Result (Option UmaLnurlpRequest)
unfolding uma_request
as_uma_request q = if is_uma_request q then uma_request q else ok none

-- strconv.FormatBool
abbrev pub format_bool : Bool → Bytes
format_bool true = codes "true"
format_bool false = codes "false"

-- The query parameters of a UMA request; `IsSubjectToTravelRule` is followed without a test for nil.
uma_query : LnurlpRequest → Result (Map Bytes)
uma_query q = do
  signature ← deref q.signature
  vasp_domain ← deref q.vasp_domain
  nonce ← deref q.nonce
  is_subject_to_travel_rule ← deref q.is_subject_to_travel_rule
  timestamp ← deref q.timestamp
  uma_version ← deref q.uma_version
  ok (
      (codes "signature", signature)
      ∷ (codes "vaspDomain", vasp_domain)
      ∷ (codes "nonce", nonce)
      ∷ (codes "isSubjectToTravelRule", format_bool is_subject_to_travel_rule)
      ∷ (codes "timestamp", format_int (unix_seconds timestamp))
      ∷ (codes "umaVersion", uma_version)
      ∷ [])

url_of_parts : LnurlpRequest → List Bytes → Result Url
unfolding uma_query
url_of_parts q (user ∷ domain ∷ []) = do
  query ← (if is_uma_request q then uma_query q else ok [])
  ok (record {
    scheme = if is_domain_localhost domain then codes "http" else codes "https";
    host = domain;
    path = codes "/.well-known/lnurlp/" ++ user;
    query = query;
  })
url_of_parts q _ = err invalid_receiver_address

unfoldable pub encode_to_url : LnurlpRequest → Result Url
unfolding url_of_parts
encode_to_url q = url_of_parts q (split b'@' q.receiver_address)

signable : Bytes → Option Time → Option Bytes → Result Bytes
signable receiver_address (some timestamp) (some nonce) =
    ok (join b'|' (receiver_address ∷ nonce ∷ format_int (unix_seconds timestamp) ∷ []))
signable _ _ _ = err missing_timestamp_or_nonce

unfoldable pub signable_payload : LnurlpRequest → Result Bytes
unfolding signable
signable_payload q = signable q.receiver_address q.timestamp q.nonce
