-- ===== src/Uma/LnurlpAnswer.antt =====
-- GetLnurlpResponse and getSignedLnurlpComplianceResponse of uma/uma.go. The caller's map of payer
-- data options is changed in place there; here the answer holds the changed map.
pub mod Verified
pub mod Sendable
use uma_go_sdk.Base.{
  ℕ, Bool, true, false, ◌&&◌, Option, none, some, List, [], ◌∷◌, Bytes, codes, map, if◌then◌else◌,
}
use uma_go_sdk.Base.Int.{ℤ, pos, ◌*ℤ◌, eqb_ℤ, wrap_int, wrap_i64}
use uma_go_sdk.Go.Result.{Result, ok, err, panic, ◌>>=◌, ◌>>◌, deref, missing_uma_field}
use uma_go_sdk.Go.Strings.{join}
use uma_go_sdk.Go.Strconv.{format_int}
use uma_go_sdk.Go.Time.{Time, unix_seconds}
use uma_go_sdk.Go.Map.{insert}
use uma_go_sdk.Crypto.{Crypto}
use uma_go_sdk.Version.{ParsedVersion, parse_version, select_lower_version, uma_protocol_version}
use uma_go_sdk.Protocol.KycStatus.{KycStatus}
use uma_go_sdk.Protocol.CounterParty.{CounterPartyDataOptions, field_string, compliance, identifier}
use uma_go_sdk.Protocol.Currency.{Currency}
use uma_go_sdk.Protocol.LnurlpRequest.{LnurlpRequest, is_uma_request, is_set}
use uma_go_sdk.Protocol.LnurlpResponse.{LnurlpResponse, LnurlComplianceResponse}
use uma_go_sdk.Uma.Signing.{generate_nonce, sign_payload}

-- The arguments of `GetLnurlpResponse`, the request aside.
pub record AnswerTerms : Type 0 where
  pub callback : Bytes
  pub encoded_metadata : Bytes
  pub min_sendable_sats : ℤ
  pub max_sendable_sats : ℤ
  pub private_key_bytes : Option Bytes
  pub requires_travel_rule_info : Option Bool
  -- `none` is a nil pointer, `some none` a pointer to a nil map.
  pub payer_data_options : Option (Option CounterPartyDataOptions)
  pub currency_options : Option (List Currency)
  pub receiver_kyc_status : Option KycStatus
  pub comment_chars_allowed : Option ℤ
  pub nostr_pubkey : Option Bytes

-- A value of type `interface{}`: nil itself, or a pointer with its type, which may be a nil pointer.
pub data Interface : Type 0 where
  nil_interface : Interface
  typed_pointer : Bool → Interface

-- fieldValue == nil
unfoldable pub is_nil_interface : Interface → Bool
is_nil_interface nil_interface = true
is_nil_interface (typed_pointer set) = false

-- The loop over the required fields.
unfoldable pub check_fields : List (Bytes × Interface) → Result (Unit {0})
check_fields [] = ok tt
check_fields ((name, value) ∷ fields) =
    let rest = check_fields fields in
    if is_nil_interface value then err (missing_uma_field name) else rest

unfoldable pub required_uma_fields : AnswerTerms → List (Bytes × Interface)
required_uma_fields terms =
    (codes "privateKeyBytes", typed_pointer (is_set terms.private_key_bytes))
    ∷ (codes "requiresTravelRuleInfo", typed_pointer (is_set terms.requires_travel_rule_info))
    ∷ (codes "payerDataOptions", typed_pointer (is_set terms.payer_data_options))
    ∷ (codes "receiverKycStatus", typed_pointer (is_set terms.receiver_kyc_status))
    ∷ (codes "currencyOptions", typed_pointer (is_set terms.currency_options))
    ∷ []

-- The two fields are written into options.
add_uma_fields : CounterPartyDataOptions → CounterPartyDataOptions
add_uma_fields c =
    insert (field_string identifier) (record { mandatory = true })
      (insert (field_string compliance) (record { mandatory = true }) c)

-- UMA always requires compliance and identifier fields. Missing options are made; writing to a nil map
-- panics.
unfoldable pub require_uma_fields :
    Option (Option CounterPartyDataOptions) → Result CounterPartyDataOptions
unfolding add_uma_fields
require_uma_fields none = ok (add_uma_fields [])
require_uma_fields (some none) = panic
require_uma_fields (some (some c)) = ok (add_uma_fields c)

-- The options of an answer that does not write to them: a nil map is taken as an empty one there.
abbrev given_options : Option (Option CounterPartyDataOptions) → Option CounterPartyDataOptions
given_options none = none
given_options (some none) = some []
given_options (some (some c)) = some c

-- What `ParseVersion` returns: the pointer, and whether there is an error.
go_pair : Result ParsedVersion → Option ParsedVersion × Bool
go_pair (ok v) = (some v, false)
go_pair _ = (none, true)

-- umaVersionParsed != nil && umaVersionParsed.Major == 0
is_major_0 : Option ParsedVersion → Bool
is_major_0 none = false
is_major_0 (some v) = eqb_ℤ v.major (pos 0)

with_major_0 : Currency → Currency
with_major_0 c = record c { uma_major_version = pos 0 }

-- The currencies in the form of the chosen version; the test is that of the source.
unfoldable pub set_currency_versions :
    Option Bytes → Option (List Currency) → Result (Option (List Currency))
unfolding go_pair is_major_0 with_major_0
set_currency_versions none currencies = ok currencies
set_currency_versions (some version) currencies =
    let (parsed, failed) = go_pair (parse_version version) in
    if failed && is_major_0 parsed
    then (deref currencies >>= λ cs. ok (some (map with_major_0 cs)))
    else ok currencies

allows_nostr_of : Option Bytes → Option Bool
allows_nostr_of none = none
allows_nostr_of (some key) = some true

module _ (crypto : Crypto) (draw : Result ℕ) (random : Bytes) (now : Time) where
  unfoldable pub get_signed_lnurlp_compliance_response :
      LnurlpRequest → Bytes → Bool → KycStatus → Result LnurlComplianceResponse
  get_signed_lnurlp_compliance_response query private_key is_subject kyc_status = do
    nonce ← generate_nonce draw
    signature ←
        sign_payload crypto random
          (join b'|' (query.receiver_address ∷ nonce ∷ format_int (unix_seconds now) ∷ []))
          private_key
    ok (record {
      kyc_status = kyc_status;
      signature = signature;
      nonce = nonce;
      timestamp = unix_seconds now;
      is_subject_to_travel_rule = is_subject;
      receiver_identifier = query.receiver_address;
    })

  -- What a UMA request adds to the answer: the version, the compliance data and the payer data.
  unfoldable pub uma_part :
      LnurlpRequest
      → AnswerTerms
      → Result (Option Bytes × Option LnurlComplianceResponse × Option CounterPartyDataOptions)
  uma_part request terms = do
    check_fields (required_uma_fields terms)
    version ← deref request.uma_version
    uma_version ← select_lower_version version uma_protocol_version
    private_key ← deref terms.private_key_bytes
    requires ← deref terms.requires_travel_rule_info
    kyc_status ← deref terms.receiver_kyc_status
    signed ← get_signed_lnurlp_compliance_response request private_key requires kyc_status
    options ← require_uma_fields terms.payer_data_options
    ok (some uma_version, some signed, some options)

  unfoldable pub get_lnurlp_response : LnurlpRequest → AnswerTerms → Result LnurlpResponse
  unfolding allows_nostr_of
  get_lnurlp_response request terms = do
    (uma_version, signed, payer_data) ←
        (if is_uma_request request
          then uma_part request terms
          else ok (none, none, given_options terms.payer_data_options))
    currencies ← set_currency_versions uma_version terms.currency_options
    ok (record {
      tag = codes "protocol.PayRequest";
      callback = terms.callback;
      min_sendable = wrap_i64 (terms.min_sendable_sats *ℤ pos 1000);
      max_sendable = wrap_i64 (terms.max_sendable_sats *ℤ pos 1000);
      encoded_metadata = terms.encoded_metadata;
      currencies = currencies;
      required_payer_data = payer_data;
      compliance = signed;
      uma_version = uma_version;
      comment_chars_allowed = terms.comment_chars_allowed;
      nostr_pubkey = terms.nostr_pubkey;
      allows_nostr = allows_nostr_of terms.nostr_pubkey;
    })
