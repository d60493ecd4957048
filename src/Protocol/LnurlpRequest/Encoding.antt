-- ===== src/Protocol/LnurlpRequest/Encoding.antt =====
-- The URL of a whole UMA request (uma/protocol/lnurl_request.go).
use uma_go_sdk.Base.{
  Bool, ◌≡◌, refl, Option, none, some, [], ◌∷◌, ◌++◌, Bytes, codes, Lacks, if◌then◌else◌,
}
use uma_go_sdk.Go.Result.{ok, ok_injective}
use uma_go_sdk.Go.Strings.{join, split-Lacks, split-append}
use uma_go_sdk.Go.Strconv.{format_int}
use uma_go_sdk.Go.Time.{Time, unix_seconds}
use uma_go_sdk.Go.Url.{Url}
use uma_go_sdk.Go.Map.{Map}
use uma_go_sdk.Utils.Url.{is_domain_localhost}
use uma_go_sdk.Protocol.LnurlpRequest.{
  LnurlpRequest, UmaLnurlpRequest, as_uma_request, uma_request, url_of_parts, encode_to_url,
  is_uma_request, uma_query, format_bool, signable, signable_payload,
}

module _ (user domain nonce signature vasp_domain version : Bytes) (subject : Bool)
    (timestamp : Time) where
  -- A request with every field set.
  abbrev pub whole_request : LnurlpRequest
  whole_request = record {
    receiver_address = user ++ b'@' ∷ domain;
    nonce = some nonce;
    signature = some signature;
    is_subject_to_travel_rule = some subject;
    vasp_domain = some vasp_domain;
    timestamp = some timestamp;
    uma_version = some version;
  }

  abbrev pub whole_query : Map Bytes
  whole_query =
      (codes "signature", signature)
      ∷ (codes "vaspDomain", vasp_domain)
      ∷ (codes "nonce", nonce)
      ∷ (codes "isSubjectToTravelRule", format_bool subject)
      ∷ (codes "timestamp", format_int (unix_seconds timestamp))
      ∷ (codes "umaVersion", version)
      ∷ []

  abbrev pub whole_url : Url
  whole_url = record {
    scheme = if is_domain_localhost domain then codes "http" else codes "https";
    host = domain;
    path = codes "/.well-known/lnurlp/" ++ user;
    query = whole_query;
  }

  pub encode_whole :
      Lacks b'@' user → Lacks b'@' domain → encode_to_url whole_request ≡ ok whole_url
  unfolding encode_to_url url_of_parts is_uma_request uma_query
  encode_whole h k = rw (split-append b'@' user domain h) (rw (split-Lacks b'@' domain k) refl)

  abbrev pub whole_uma_request : UmaLnurlpRequest
  whole_uma_request = record {
    lnurlp_request = whole_request;
    receiver_address = user ++ b'@' ∷ domain;
    nonce = nonce;
    signature = signature;
    is_subject_to_travel_rule = subject;
    vasp_domain = vasp_domain;
    timestamp = timestamp;
    uma_version = version;
  }

  pub as_uma_whole : as_uma_request whole_request ≡ ok (some whole_uma_request)
  unfolding as_uma_request is_uma_request uma_request
  as_uma_whole = refl

-- receiver address | nonce | Unix time
abbrev pub whole_payload : Bytes → Bytes → Time → Bytes
whole_payload receiver_address nonce timestamp =
    join b'|' (receiver_address ∷ nonce ∷ format_int (unix_seconds timestamp) ∷ [])

pub signable_payload-some :
    (q : LnurlpRequest) (nonce : Bytes) (timestamp : Time)
    → q.nonce ≡ some nonce
    → q.timestamp ≡ some timestamp
    → signable_payload q ≡ ok (whole_payload q.receiver_address nonce timestamp)
unfolding signable_payload signable
signable_payload-some q nonce timestamp h k = rw h (rw k refl)

-- A request with a payload has a nonce and a timestamp, and the payload is that of these.
pub signable_payload-ok :
    (q : LnurlpRequest) (payload : Bytes)
    → signable_payload q ≡ ok payload
    → (nonce : Bytes) × (timestamp : Time) × (q.nonce ≡ some nonce)
      × (q.timestamp ≡ some timestamp)
      × (whole_payload q.receiver_address nonce timestamp ≡ payload)
unfolding signable_payload signable
signable_payload-ok q payload h = parts q.timestamp q.nonce refl refl h
  where
    parts :
        (t : Option Time) (n : Option Bytes)
        → q.timestamp ≡ t
        → q.nonce ≡ n
        → signable q.receiver_address t n ≡ ok payload
        → (nonce : Bytes) × (timestamp : Time) × (q.nonce ≡ some nonce)
          × (q.timestamp ≡ some timestamp)
          × (whole_payload q.receiver_address nonce timestamp ≡ payload)
    parts none n et en e = cc
    parts (some t) none et en e = cc
    parts (some t) (some n) et en e = (n, t, en, et, ok_injective e)
