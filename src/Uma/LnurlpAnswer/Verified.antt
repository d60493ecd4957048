-- ===== src/Uma/LnurlpAnswer/Verified.antt =====
-- The answer of `GetLnurlpResponse` (uma/uma.go) and its check by the sender.
pub mod Received
use uma_go_sdk.Base.{
  eqb, ◌∙◌, ℕ, Bool, true, false, ◌≡◌, ◌≢◌, refl, ◌&&◌, Option, none, some, List, [], ◌∷◌, Bytes,
  codes,
}
use uma_go_sdk.Base.Int.{pos, ◌*ℤ◌, wrap_i64}
use uma_go_sdk.Go.Result.{Result, ok, err, panic}
use uma_go_sdk.Go.Strings.{join}
use uma_go_sdk.Go.Strconv.{format_uint, format_int}
use uma_go_sdk.Go.Time.{Time, unix, unix_seconds, before}
use uma_go_sdk.Go.Map.{lookup, lookup-insert}
use uma_go_sdk.Go.Hex.{encode_to_string}
use uma_go_sdk.Crypto.{Crypto, IsKeyPair, IsSigner}
use uma_go_sdk.Protocol.CounterParty.{CounterPartyDataOptions, field_string}
use uma_go_sdk.Version.{ParsedVersion, parse_version, select_lower_version, uma_protocol_version}
use uma_go_sdk.NonceCache.{in_memory, InMemoryNonceCache}
use uma_go_sdk.Protocol.KycStatus.{KycStatus}
use uma_go_sdk.Protocol.Currency.{Currency}
use uma_go_sdk.Protocol.PubKeyResponse.{PubKeyResponse, signing_pub_key}
use uma_go_sdk.Protocol.LnurlpRequest.{LnurlpRequest, is_uma_request}
use uma_go_sdk.Protocol.LnurlpResponse.{
  LnurlpResponse, UmaLnurlpResponse, LnurlComplianceResponse, as_uma_response, response_payload,
}
use uma_go_sdk.Protocol.LnurlpResponse.Whole.{as_uma_response-some}
use uma_go_sdk.Uma.Signing.{sign_payload, sign_payload_to_bytes, generate_nonce}
use uma_go_sdk.Uma.SigningLaws.{verify-sign_payload}
use uma_go_sdk.Uma.Verify.{verify_uma_lnurlp_response_signature}
use uma_go_sdk.Uma.ReplayLaws.{with_nonce_fresh}
use uma_go_sdk.Uma.LnurlpAnswer.{
  add_uma_fields, AnswerTerms, check_fields, required_uma_fields, set_currency_versions,
  is_nil_interface, get_signed_lnurlp_compliance_response, get_lnurlp_response, uma_part,
  require_uma_fields, allows_nostr_of, go_pair, is_major_0,
}

never_both : (r : Result ParsedVersion) → ((go_pair r).1 && is_major_0 (go_pair r).0) ≡ false
unfolding go_pair is_major_0
never_both (ok v) = refl
never_both (err e) = refl
never_both panic = refl

-- The code that is to mark the currencies of a version 0 answer never does so.
pub set_currency_versions_id :
    (version : Option Bytes) (currencies : Option (List Currency))
    → set_currency_versions version currencies ≡ ok currencies
unfolding set_currency_versions
set_currency_versions_id none currencies = refl
set_currency_versions_id (some version) currencies = rw (never_both (parse_version version)) refl

-- The test for missing fields finds none, whatever the arguments are.
pub check_fields_passes : (terms : AnswerTerms) → check_fields (required_uma_fields terms) ≡ ok tt
unfolding check_fields required_uma_fields is_nil_interface
check_fields_passes terms = refl

-- A UMA request whose version parses, answered with no private key, panics: the test for missing
-- fields does not stop it.
pub missing_key_panics :
    (crypto : Crypto) (draw : Result ℕ) (random : Bytes) (now : Time) (request : LnurlpRequest)
    (terms : AnswerTerms) (version chosen : Bytes)
    → is_uma_request request ≡ true
    → request.uma_version ≡ some version
    → select_lower_version version uma_protocol_version ≡ ok chosen
    → terms.private_key_bytes ≡ none
    → get_lnurlp_response crypto draw random now request terms ≡ panic
unfolding get_lnurlp_response uma_part
missing_key_panics crypto draw random now request terms version chosen uma hv hc hk =
    rw (uma, check_fields_passes terms) (rw hv (rw hc (rw hk refl)))

-- The field stands in the options, and it is mandatory.
abbrev pub IsMandatory : Bytes → CounterPartyDataOptions → Type 0
IsMandatory name c = lookup name c ≡ some (record { mandatory = true })

added_fields :
    (c : CounterPartyDataOptions)
    → IsMandatory (codes "compliance") (add_uma_fields c)
      × IsMandatory (codes "identifier") (add_uma_fields c)
unfolding add_uma_fields field_string eqb
added_fields c = (
  lookup-insert (codes "identifier") (codes "compliance") _ _
      ∙ lookup-insert (codes "compliance") (codes "compliance") _ c,
  lookup-insert (codes "identifier") (codes "identifier") _ _,
)

-- Options that are not a nil map get both fields.
pub required_fields :
    (given : Option (Option CounterPartyDataOptions))
    → given ≢ some none
    → (c : CounterPartyDataOptions) × (require_uma_fields given ≡ ok c)
      × IsMandatory (codes "compliance") c
      × IsMandatory (codes "identifier") c
unfolding require_uma_fields
required_fields none h =
    let (first, second) = added_fields [] in (add_uma_fields [], refl, first, second)
required_fields (some none) h = absurd (h refl)
required_fields (some (some c)) h =
    let (first, second) = added_fields c in (add_uma_fields c, refl, first, second)

module _ (crypto : Crypto) (private_key public_key : Bytes)
    (pair : IsKeyPair crypto private_key public_key) (vasp : PubKeyResponse)
    (has_key : signing_pub_key crypto vasp ≡ ok public_key) (n : ℕ) (random : Bytes) (now : Time)
    (request : LnurlpRequest) (terms : AnswerTerms) where
  signed_compliance :
      (subject : Bool) (kyc_status : KycStatus)
      → IsSigner crypto random private_key
      → (c : LnurlComplianceResponse) × (get_signed_lnurlp_compliance_response crypto
            (ok n)
            random
            now
            request
            private_key
            subject
            kyc_status
          ≡ ok c)
        × (c.nonce ≡ format_uint n)
        × (c.timestamp ≡ unix_seconds now)
        × (sign_payload crypto random
              (join b'|' (c.receiver_identifier ∷ c.nonce ∷ format_int c.timestamp ∷ []))
              private_key
            ≡ ok c.signature)
        × (c.kyc_status ≡ kyc_status)
  unfolding get_signed_lnurlp_compliance_response generate_nonce sign_payload sign_payload_to_bytes
  signed_compliance subject kyc_status signer =
      let payload =
        join b'|' (request.receiver_address ∷ format_uint n ∷ format_int (unix_seconds now) ∷ []) in
      let (s, es) = signer (crypto.sha256 payload) in
      (
        record {
          kyc_status = kyc_status;
          signature = encode_to_string s;
          nonce = format_uint n;
          timestamp = unix_seconds now;
          is_subject_to_travel_rule = subject;
          receiver_identifier = request.receiver_address;
        },
        rw es refl,
        refl,
        refl,
        rw es refl,
        refl,
      )

  -- The answer with this version, these compliance data and options.
  abbrev answer : Bytes → LnurlComplianceResponse → CounterPartyDataOptions → LnurlpResponse
  answer chosen c options = record {
    tag = codes "protocol.PayRequest";
    callback = terms.callback;
    min_sendable = wrap_i64 (terms.min_sendable_sats *ℤ pos 1000);
    max_sendable = wrap_i64 (terms.max_sendable_sats *ℤ pos 1000);
    encoded_metadata = terms.encoded_metadata;
    currencies = terms.currency_options;
    required_payer_data = some options;
    compliance = some c;
    uma_version = some chosen;
    comment_chars_allowed = terms.comment_chars_allowed;
    nostr_pubkey = terms.nostr_pubkey;
    allows_nostr = allows_nostr_of terms.nostr_pubkey;
  }

  uma_part-some :
      (version chosen : Bytes) (subject : Bool) (kyc_status : KycStatus)
      (c : LnurlComplianceResponse) (options : CounterPartyDataOptions)
      → request.uma_version ≡ some version
      → select_lower_version version uma_protocol_version ≡ ok chosen
      → terms.private_key_bytes ≡ some private_key
      → terms.requires_travel_rule_info ≡ some subject
      → terms.receiver_kyc_status ≡ some kyc_status
      → get_signed_lnurlp_compliance_response crypto
          (ok n)
          random
          now
          request
          private_key
          subject
          kyc_status
        ≡ ok c
      → require_uma_fields terms.payer_data_options ≡ ok options
      → uma_part crypto (ok n) random now request terms ≡ ok (some chosen, some c, some options)
  unfolding uma_part
  uma_part-some version chosen subject kyc_status c options hv hc hk hs hy ec eo =
      simp (check_fields_passes terms, hv, hc, hk, hs, hy, ec, eo)

  response_accepted :
      (u : UmaLnurlpResponse) (c : LnurlComplianceResponse) (cache : InMemoryNonceCache)
      → u.compliance ≡ c
      → c.nonce ≡ format_uint n
      → c.timestamp ≡ unix_seconds now
      → sign_payload crypto random
          (join b'|' (c.receiver_identifier ∷ c.nonce ∷ format_int c.timestamp ∷ []))
          private_key
        ≡ ok c.signature
      → lookup (format_uint n) cache.cache ≡ none
      → before (unix (unix_seconds now)) cache.oldest_valid_timestamp ≡ false
      → (verify_uma_lnurlp_response_signature crypto u vasp cache).0 ≡ ok tt
  unfolding verify_uma_lnurlp_response_signature response_payload
  response_accepted u c cache ec en et es fresh young = rw ec (
      with_nonce_fresh cache c.nonce (unix c.timestamp) _ (rw en fresh) (rw et young) (
        verify-sign_payload crypto private_key public_key pair vasp has_key random _ c.signature
          es))

  -- A UMA request whose version parses is answered, when the private key signs and the options that
  -- UMA needs are given, and those of the payer data are not a nil map. The answer is a UMA response with the lower of the two versions; its payer
  -- data have the fields compliance and identifier, both mandatory; and the sender's check
  -- accepts its signature, if the sender's copy of the keys has the public key of the pair, and its
  -- nonce cache has not seen the nonce and does not find the moment too old.
  pub answer_verified :
      (cache : InMemoryNonceCache) (version chosen : Bytes) (subject : Bool)
      (kyc_status : KycStatus) (currencies : List Currency)
      → is_uma_request request ≡ true
      → request.uma_version ≡ some version
      → select_lower_version version uma_protocol_version ≡ ok chosen
      → terms.private_key_bytes ≡ some private_key
      → terms.requires_travel_rule_info ≡ some subject
      → terms.receiver_kyc_status ≡ some kyc_status
      → terms.currency_options ≡ some currencies
      → terms.payer_data_options ≢ some none
      → IsSigner crypto random private_key
      → lookup (format_uint n) cache.cache ≡ none
      → before (unix (unix_seconds now)) cache.oldest_valid_timestamp ≡ false
      → (r : LnurlpResponse) × (u : UmaLnurlpResponse) × (get_lnurlp_response crypto
            (ok n)
            random
            now
            request
            terms
          ≡ ok r)
        × (as_uma_response r ≡ ok (some u))
        × (u.uma_version ≡ chosen)
        × IsMandatory (codes "compliance") u.required_payer_data
        × IsMandatory (codes "identifier") u.required_payer_data
        × ((verify_uma_lnurlp_response_signature crypto u vasp cache).0 ≡ ok tt)
  answer_verified cache version chosen subject kyc_status currencies uma hv hc hk hs hy hm ho signer
        fresh young =
      let (c, ec, en, et, es, ek) = signed_compliance subject kyc_status signer in
      let (options, eo, first, second) = required_fields terms.payer_data_options ho in
      let (u, eu, euc, eup, euv) =
        as_uma_response-some (answer chosen c options) currencies options c chosen hm refl refl
          refl in
      (
        answer chosen c options,
        u,
        unfold get_lnurlp_response in
            rw (uma, uma_part-some version chosen subject kyc_status c options hv hc hk hs hy ec eo)
              (rw (set_currency_versions_id (some chosen) terms.currency_options) refl),
        eu,
        euv,
        rw eup first,
        rw eup second,
        response_accepted u c cache euc en et es fresh young,
      )
