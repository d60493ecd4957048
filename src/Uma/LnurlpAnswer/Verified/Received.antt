-- ===== src/Uma/LnurlpAnswer/Verified/Received.antt =====
-- The answer of `GetLnurlpResponse` (uma/uma.go) through its JSON form, and its check by the sender.
use uma_go_sdk.Base.{ℕ, Bool, true, false, ◌≡◌, ◌≢◌, refl, none, some, List, Bytes, codes}
use uma_go_sdk.Base.Int.{wrap_i64-IsInt64}
use uma_go_sdk.Go.Result.{ok, ◌>>=◌}
use uma_go_sdk.Go.Strconv.{format_uint}
use uma_go_sdk.Go.Time.{Time, unix, unix_seconds, before}
use uma_go_sdk.Go.Map.{lookup}
use uma_go_sdk.Go.Json.{Float64}
use uma_go_sdk.Go.Json.Laws.{IsFloat64, IsOptionalInt64}
use uma_go_sdk.Crypto.{Crypto, IsKeyPair, IsSigner}
use uma_go_sdk.Version.{select_lower_version, uma_protocol_version}
use uma_go_sdk.NonceCache.{InMemoryNonceCache, in_memory}
use uma_go_sdk.Protocol.KycStatus.{KycStatus, known}
use uma_go_sdk.Protocol.Currency.{Currency}
use uma_go_sdk.Protocol.PubKeyResponse.{PubKeyResponse, signing_pub_key}
use uma_go_sdk.Protocol.LnurlpRequest.{LnurlpRequest, is_uma_request}
use uma_go_sdk.Protocol.LnurlpResponse.{LnurlpResponse, UmaLnurlpResponse, as_uma_response}
use uma_go_sdk.Protocol.LnurlpResponse.Whole.{as_uma_response-some}
use uma_go_sdk.Protocol.LnurlpResponse.Json.{marshal_lnurlp_response, unmarshal_lnurlp_response}
use uma_go_sdk.Protocol.LnurlpResponse.Json.RoundTrip.{
  CurrenciesAreKept, currencies_as_read, as_read, lnurlp_response-unmarshal-marshal,
}
use uma_go_sdk.Base.{map}
use uma_go_sdk.Uma.Verify.{verify_uma_lnurlp_response_signature}
use uma_go_sdk.Uma.LnurlpAnswer.{AnswerTerms, get_lnurlp_response}
use uma_go_sdk.Uma.LnurlpAnswer.Verified.{
  IsMandatory, required_fields, set_currency_versions_id, answer, signed_compliance, uma_part-some,
  response_accepted,
}

module _ (crypto : Crypto) (private_key public_key : Bytes)
    (pair : IsKeyPair crypto private_key public_key) (vasp : PubKeyResponse)
    (has_key : signing_pub_key crypto vasp ≡ ok public_key) (n : ℕ) (random : Bytes) (now : Time)
    (request : LnurlpRequest) (terms : AnswerTerms) (float : Float64)
    (floats : IsFloat64 float) where
  -- A UMA request whose version parses is answered, when the private key is given and signs, the travel
  -- rule flag, the status and the currencies are given, and the options are not a nil map. The JSON form of the answer is read back by the sender as a UMA response with
  -- the lower of the two versions, the drawn nonce and the fields compliance and identifier, both
  -- mandatory, and the
  -- sender's check accepts its signature; if the status is one of the constants, the currencies can be
  -- written and read, the length of comments is an int64, the sender's copy of the keys has the public
  -- key of the pair, and its nonce cache has not seen the nonce and does not find the moment too old.
  pub answer_received :
      (cache : InMemoryNonceCache) (version chosen : Bytes) (subject : Bool)
      (kyc_status : KycStatus) (currencies : List Currency)
      → is_uma_request request ≡ true
      → request.uma_version ≡ some version
      → select_lower_version version uma_protocol_version ≡ ok chosen
      → terms.private_key_bytes ≡ some private_key
      → terms.requires_travel_rule_info ≡ some subject
      → terms.receiver_kyc_status ≡ some kyc_status
      → terms.currency_options ≡ some currencies
      → terms.payer_data_options ≢ some none
      → CurrenciesAreKept float (some currencies)
      → IsOptionalInt64 terms.comment_chars_allowed
      → known kyc_status ≡ kyc_status
      → IsSigner crypto random private_key
      → lookup (format_uint n) cache.cache ≡ none
      → before (unix (unix_seconds now)) cache.oldest_valid_timestamp ≡ false
      → (r : LnurlpResponse) × (q : LnurlpResponse) × (u : UmaLnurlpResponse) × (get_lnurlp_response
            crypto
            (ok n)
            random
            now
            request
            terms
          ≡ ok r)
        × ((marshal_lnurlp_response float r >>= unmarshal_lnurlp_response float) ≡ ok q)
        × (as_uma_response q ≡ ok (some u))
        × (u.uma_version ≡ chosen)
        × (u.compliance.nonce ≡ format_uint n)
        × IsMandatory (codes "compliance") u.required_payer_data
        × IsMandatory (codes "identifier") u.required_payer_data
        × ((verify_uma_lnurlp_response_signature crypto u vasp cache).0 ≡ ok tt)
  answer_received cache version chosen subject kyc_status currencies uma hv hc hk hs hy hm ho kept
        chars status signer fresh young =
      let (c, ec, en, et, es, ek) =
        signed_compliance crypto private_key public_key pair vasp has_key n random now request terms
          subject kyc_status signer in
      let (options, eo, first, second) = required_fields terms.payer_data_options ho in
      let r =
        answer crypto private_key public_key pair vasp has_key n random now request terms chosen c
          options in
      let q : LnurlpResponse = record r {
        currencies = currencies_as_read terms.currency_options;
      } in
      let (u, eu, euc, eup, euv) =
        as_uma_response-some q (map as_read currencies) options c chosen (rw hm refl) refl refl
          refl in
      (
        r,
        q,
        u,
        unfold get_lnurlp_response in
            rw
              (
                uma,
                uma_part-some crypto private_key public_key pair vasp has_key n random now request
                    terms version chosen subject kyc_status c options hv hc hk hs hy ec eo,
              )
              (rw (set_currency_versions_id (some chosen) terms.currency_options) refl),
        lnurlp_response-unmarshal-marshal float floats r (wrap_i64-IsInt64 _) (wrap_i64-IsInt64 _)
            chars (rw hm kept) (rw ek status, rw et (unfold unix_seconds in wrap_i64-IsInt64 _)),
        eu,
        euv,
        rw euc en,
        rw eup first,
        rw eup second,
        response_accepted crypto private_key public_key pair vasp has_key n random now request terms
            u c cache euc en et es fresh young,
      )
