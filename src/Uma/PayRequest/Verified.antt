-- ===== src/Uma/PayRequest/Verified.antt =====
-- A signed pay request from the sender, through its JSON form, to the receiver's check (uma/uma.go and
-- uma/protocol/pay_request.go).
use uma_go_sdk.Base.{
  ℕ, true, false, ◌≡◌, ◌≢◌, refl, Option, none, some, [], ◌∷◌, Bytes, if◌then◌else◌,
}
use uma_go_sdk.Base.Int.{pos, eqb_ℤ, IsInt64, wrap_i64-IsInt64}
use uma_go_sdk.Go.Result.{ok}
use uma_go_sdk.Go.Strings.{join}
use uma_go_sdk.Go.Strconv.{format_uint, format_int}
use uma_go_sdk.Go.Time.{Time, unix, unix_seconds, before}
use uma_go_sdk.Go.Map.{lookup}
use uma_go_sdk.Go.Hex.{encode_to_string}
use uma_go_sdk.Go.Json.{Members, JsonLib, object}
use uma_go_sdk.Go.Json.Laws.{IsFloat64, IsExactInt}
use uma_go_sdk.Crypto.{Crypto, IsKeyPair, IsSigner}
use uma_go_sdk.NonceCache.{InMemoryNonceCache, in_memory}
use uma_go_sdk.Protocol.KycStatus.{known}
use uma_go_sdk.Protocol.PubKeyResponse.{PubKeyResponse, signing_pub_key}
use uma_go_sdk.Protocol.PayerData.{
  CompliancePayerData, payer_compliance, compliance_of, payer_identifier, payer_as_map,
}
use uma_go_sdk.Protocol.PayerData.RoundTrip.{IsKept, RuleIsWritable, payer-as_map}
use uma_go_sdk.Protocol.PayRequest.{
  PayRequest, zero_pay_request, marshal_pay_request, unmarshal_pay_request, is_uma_pay_request,
}
use uma_go_sdk.Protocol.PayRequest.RoundTrip.{CodeIsWritable, v1-unmarshal-marshal}
use uma_go_sdk.Uma.Signing.{sign_payload, sign_payload_to_bytes, generate_nonce}
use uma_go_sdk.Uma.SigningLaws.{verify-sign_payload}
use uma_go_sdk.Uma.ReplayLaws.{with_nonce_fresh}
use uma_go_sdk.Protocol.CounterParty.{CounterPartyDataOptions}
use uma_go_sdk.Uma.LnurlpAnswer.{require_uma_fields}
use uma_go_sdk.Uma.LnurlpAnswer.Verified.{required_fields}
use uma_go_sdk.Uma.PayRequest.{
  PayTerms, request_with, encrypt_optional, get_signed_compliance_payer_data,
  get_uma_pay_request_with_invoice, verify_pay_req_signature,
}
use uma_go_sdk.Uma.PayRequest.Carried.{
  Carries, sent_request, sent-Carries, request-DataIsKept, chosen_code, payload-Carries,
  Carries-is_uma,
}

module _ (crypto : Crypto) (private_key public_key : Bytes)
    (pair : IsKeyPair crypto private_key public_key) (vasp : PubKeyResponse)
    (has_key : signing_pub_key crypto vasp ≡ ok public_key) where
  Carries-verified :
      (q : PayRequest) (identifier : Bytes) (ms : Members) (c : CompliancePayerData)
      (random : Bytes) (cache : InMemoryNonceCache)
      → identifier ≢ []
      → Carries q identifier ms
      → compliance_of (some (object ms)) ≡ ok (some c)
      → sign_payload crypto random
          (join b'|' (identifier ∷ c.signature_nonce ∷ format_int c.signature_timestamp ∷ []))
          private_key
        ≡ ok c.signature
      → lookup c.signature_nonce cache.cache ≡ none
      → before (unix c.signature_timestamp) cache.oldest_valid_timestamp ≡ false
      → (verify_pay_req_signature crypto q vasp cache).0 ≡ ok tt
  unfolding verify_pay_req_signature payer_compliance
  Carries-verified q identifier ms c random cache ne (d, ed, ei, ec) eo es fresh young =
      let signed =
        verify-sign_payload crypto private_key public_key pair vasp has_key random _ c.signature
          es in
      let payload = payload-Carries q identifier ms c ne (d, ed, ei, ec) eo in
      simp (ed, ec, eo)
        (with_nonce_fresh cache c.signature_nonce (unix c.signature_timestamp) _ fresh young
          (rw payload signed))

  module _ (lib : JsonLib) (floats : IsFloat64 lib.float) (n : ℕ) (random random' : Bytes)
      (now : Time) (terms : PayTerms) where
    abbrev compliance_data : Option Bytes → Bytes → CompliancePayerData
    compliance_data info signature = record {
      utxos = terms.payer_utxos;
      node_pub_key = terms.payer_node_pub_key;
      kyc_status = terms.payer_kyc_status;
      encrypted_travel_rule_info = info;
      travel_rule_format = terms.tr_info_format;
      signature = signature;
      signature_nonce = format_uint n;
      signature_timestamp = unix_seconds now;
      utxo_callback = terms.utxo_callback;
    }

    abbrev payload : Bytes
    payload =
        join b'|' (terms.payer_identifier ∷ format_uint n ∷ format_int (unix_seconds now) ∷ [])

    request_made :
        (info : Option Bytes) (signature : Bytes) (options : CounterPartyDataOptions) (ms : Members)
        → terms.sending_vasp_private_key ≡ private_key
        → encrypt_optional crypto random terms.tr_info terms.receiver_encryption_pub_key ≡ ok info
        → sign_payload crypto random' payload private_key ≡ ok signature
        → require_uma_fields terms.requested_payee_data ≡ ok options
        → payer_as_map lib (compliance_data info signature) ≡ ok ms
        → get_uma_pay_request_with_invoice crypto lib (ok n) random random' now terms
          ≡ ok (request_with terms options ms)
    unfolding get_uma_pay_request_with_invoice get_signed_compliance_payer_data generate_nonce
    request_made info signature options ms ek ei es eo em = simp (ek, ei, es, eo, em)

    -- A signed pay request is made whenever the key signs and the travel rule information is
    -- encrypted; its JSON form is read back as a UMA request of version 1 of that payer, with the
    -- amount and the currency codes but no invoice UUID, and the receiver accepts the signature of
    -- what was read, if the version is not 0, the payer has an identifier, the requested
    -- options are not a nil map, the status is one of the
    -- constants, the travel rule format, if any, has a version and is read from what is written for
    -- it, the currency code is not empty and has no dot, the amount is an int64 and the time one that
    -- float64 holds, the keys match, and the nonce is new and recent enough.
    pub pay_request_verified :
        (cache : InMemoryNonceCache) (info : Option Bytes)
        → IsSigner crypto random' private_key
        → terms.sending_vasp_private_key ≡ private_key
        → encrypt_optional crypto random terms.tr_info terms.receiver_encryption_pub_key ≡ ok info
        → eqb_ℤ terms.uma_major_version (pos 0) ≡ false
        → terms.payer_identifier ≢ []
        → terms.requested_payee_data ≢ some none
        → known terms.payer_kyc_status ≡ terms.payer_kyc_status
        → RuleIsWritable lib terms.tr_info_format
        → CodeIsWritable (some terms.receiving_currency_code)
        → IsInt64 terms.amount
        → IsExactInt (unix_seconds now)
        → lookup (format_uint n) cache.cache ≡ none
        → before (unix (unix_seconds now)) cache.oldest_valid_timestamp ≡ false
        → (p : PayRequest) × (q : PayRequest) × (get_uma_pay_request_with_invoice crypto lib
              (ok n)
              random
              random'
              now
              terms
            ≡ ok p)
          × (unmarshal_pay_request lib zero_pay_request (marshal_pay_request p) ≡ ok q)
          × (q.amount ≡ terms.amount)
          × (q.receiving_currency_code ≡ some terms.receiving_currency_code)
          × (q.sending_amount_currency_code ≡ (
              if terms.is_amount_in_receiving_currency
              then some terms.receiving_currency_code
              else none))
          × (q.uma_major_version ≡ pos 1)
          × (q.invoice_uuid ≡ none)
          × (is_uma_pay_request q ≡ true)
          × (payer_identifier q.payer_data ≡ some terms.payer_identifier)
          × ((verify_pay_req_signature crypto q vasp cache).0 ≡ ok tt)
    pay_request_verified cache info signer ek ei version ne not_nil status rule code amount exact
          fresh young =
        let (s, es) = signer (crypto.sha256 payload) in
        let signature = encode_to_string s in
        let signed : sign_payload crypto random' payload private_key ≡ ok signature =
          unfold sign_payload sign_payload_to_bytes in rw es refl in
        let c = compliance_data info signature in
        let kept : IsKept lib c = record {
          status = status;
          rule = rule;
          timestamp = unfold unix_seconds in wrap_i64-IsInt64 _;
          exact = exact;
        } in
        let (ms, em, eo, stable) = payer-as_map lib floats c kept in
        let (options, required, _, _) = required_fields terms.requested_payee_data not_nil in
        let p = request_with terms options ms in
        let carries = sent-Carries lib.float terms options ms stable in
        let (is_uma, payer) =
          Carries-is_uma (sent_request p) terms.payer_identifier ms c carries eo in
        (
          p,
          sent_request p,
          request_made info signature options ms ek ei signed required em,
          v1-unmarshal-marshal lib p (unfold request_with in version)
              (unfold request_with in amount)
              (unfold request_with in chosen_code terms.is_amount_in_receiving_currency _ code)
              (request-DataIsKept lib terms options ms stable),
          unfold request_with in refl,
          unfold request_with in refl,
          unfold request_with in refl,
          refl,
          refl,
          is_uma,
          payer,
          Carries-verified (sent_request p) terms.payer_identifier ms c random' cache ne carries eo
              signed fresh young,
        )
