-- ===== src/Uma/PayResponse/Verified.antt =====
-- A signed answer to a pay request from the receiver, through its JSON form, to the sender's check
-- (uma/uma.go and uma/protocol/payreq_response.go).
use mathlib.Core.Path.{subst}
use uma_go_sdk.Base.{
  ℕ, true, false, ◌≡◌, refl, sym, ◌∙◌, Option, none, some, [], ◌∷◌, ◌++◌, Bytes, codes,
}
use uma_go_sdk.Base.Int.{ℤ, pos, eqb_ℤ, wrap_i64-IsInt64}
use uma_go_sdk.Go.Result.{Result, ok, ◌>>=◌}
use uma_go_sdk.Go.Strings.{join}
use uma_go_sdk.Go.Strconv.{format_uint, format_int}
use uma_go_sdk.Go.Time.{Time, unix, unix_seconds, before}
use uma_go_sdk.Go.Map.{lookup}
use uma_go_sdk.Go.Hex.{encode_to_string}
use uma_go_sdk.Go.Json.{Members, JsonLib, marshal, object, get_member, set_member}
use uma_go_sdk.Go.Json.Laws.{
  IsFloat64, IsExactInt, HasStable, marshal_members-id, set_member-HasStable,
}
use uma_go_sdk.Crypto.{Crypto, IsKeyPair, IsSigner}
use uma_go_sdk.NonceCache.{InMemoryNonceCache, in_memory}
use uma_go_sdk.Protocol.CounterParty.{field_string}
use uma_go_sdk.Protocol.PubKeyResponse.{PubKeyResponse, signing_pub_key}
use uma_go_sdk.Protocol.PayerData.{payer_identifier}
use uma_go_sdk.Protocol.PayeeData.{
  PayeeData, CompliancePayeeData, payee_compliance, payee_as_map, payee_payload,
}
use uma_go_sdk.Protocol.PayeeData.RoundTrip.{payee-as_map}
use uma_go_sdk.Protocol.PayRequest.{PayRequest, is_uma_pay_request}
use uma_go_sdk.Protocol.PayRequest.RoundTrip.{sent_data}
use uma_go_sdk.Protocol.PayReqResponse.{PayReqResponse, PayReqResponsePaymentInfo}
use uma_go_sdk.Protocol.PayReqResponse.Json.{marshal_payreq_response, unmarshal_payreq_response}
use uma_go_sdk.Protocol.PayReqResponse.RoundTrip.{PaymentIsKept, response-unmarshal-marshal}
use uma_go_sdk.Uma.Signing.{sign_payload, sign_payload_to_bytes, generate_nonce}
use uma_go_sdk.Uma.SigningLaws.{verify-sign_payload}
use uma_go_sdk.Uma.ReplayLaws.{with_nonce_fresh}
use uma_go_sdk.Uma.PayResponse.Metadata.{optional_invoice_uuid}
use uma_go_sdk.Uma.PayResponse.Given.{
  IsGiven, with_identifier-IsUnsigned, sent_compliance, HasTerms,
}
use uma_go_sdk.Uma.PayResponse.{
  ResponseTerms, check_sending_currency, validate_pay_req_currency_fields,
  validate_uma_pay_req_fields, msats_amount, receiving_amount, payment_of, with_identifier,
  add_compliance, payer_data_text, get_signed_compliance_payee_data, uma_payee_data,
  get_pay_req_response,
}
use uma_go_sdk.Uma.PayResponse.Check.{verify_pay_req_response_signature}

module _ (crypto : Crypto) (private_key public_key : Bytes)
    (pair : IsKeyPair crypto private_key public_key) (vasp : PubKeyResponse)
    (has_key : signing_pub_key crypto vasp ≡ ok public_key) where
  -- A response with signed compliance data is accepted.
  compliance_verified :
      (r : PayReqResponse) (c : CompliancePayeeData) (nonce : Bytes) (timestamp : ℤ)
      (signature payer payee random : Bytes) (cache : InMemoryNonceCache)
      → eqb_ℤ r.uma_major_version (pos 0) ≡ false
      → payee_compliance r.payee_data ≡ ok (some c)
      → c.signature_nonce ≡ some nonce
      → c.signature_timestamp ≡ some timestamp
      → c.signature ≡ some signature
      → sign_payload crypto random
          (join b'|' (payer ∷ payee ∷ nonce ∷ format_int timestamp ∷ []))
          private_key
        ≡ ok signature
      → lookup nonce cache.cache ≡ none
      → before (unix timestamp) cache.oldest_valid_timestamp ≡ false
      → (verify_pay_req_response_signature crypto r vasp cache payer payee).0 ≡ ok tt
  unfolding verify_pay_req_response_signature payee_payload
  compliance_verified r c nonce timestamp signature payer payee random cache version ec en et es
        signed fresh young =
      let checked =
        verify-sign_payload crypto private_key public_key pair vasp has_key random _ signature
          signed in
      simp (ec, version, en, et)
        (with_nonce_fresh cache nonce (unix timestamp) _ fresh young (rw es checked))

  module _ (lib : JsonLib) (floats : IsFloat64 lib.float) (n : ℕ) (random : Bytes) (now : Time)
      (request : PayRequest) (t : ResponseTerms) (code : Bytes) (decimals : ℤ) (rate : ℕ) (fees : ℤ)
      (payer payee : Bytes) (terms : HasTerms t code decimals rate fees payee private_key) where
    abbrev compliance_data : Option Bytes → CompliancePayeeData
    compliance_data signature = record {
      node_pub_key = t.receiver_node_pub_key;
      utxos = t.receiver_channel_utxos;
      utxo_callback = t.utxo_callback;
      signature = signature;
      signature_nonce = some (format_uint n);
      signature_timestamp = some (unix_seconds now);
    }

    abbrev payload : Bytes
    payload = join b'|' (payer ∷ payee ∷ format_uint n ∷ format_int (unix_seconds now) ∷ [])

    abbrev payment : PayReqResponsePaymentInfo
    payment = record {
      amount = receiving_amount lib.float request t;
      currency_code = code;
      multiplier = rate;
      decimals = decimals;
      exchange_fees_millisatoshi = fees;
    }

    abbrev response : PayeeData → Bytes → Members → PayReqResponse
    response d invoice ms = record {
      encoded_invoice = invoice;
      routes = some [];
      payment_info = some payment;
      payee_data = some (set_member (codes "compliance") (object ms) d);
      disposable = t.disposable;
      success_action = t.success_action;
      uma_major_version = request.uma_major_version;
    }

    currency_fields-valid : validate_pay_req_currency_fields t ≡ ok tt
    unfolding validate_pay_req_currency_fields
    currency_fields-valid =
        simp (terms.has_code, terms.has_decimals, terms.has_rate, terms.has_fees)

    uma_fields-valid : validate_uma_pay_req_fields t ≡ ok tt
    unfolding validate_uma_pay_req_fields
    uma_fields-valid = simp (
      terms.has_code, terms.has_decimals, terms.has_rate, terms.has_fees, terms.has_payee,
      terms.has_key, terms.has_source,
    )

    payment_made : payment_of lib.float request t (some code) ≡ ok (some payment)
    unfolding payment_of
    payment_made = simp (terms.has_decimals, terms.has_rate, terms.has_fees)

    payee_data_made :
        (d : PayeeData) (signature : Bytes) (ms : Members)
        → payer_identifier request.payer_data ≡ some payer
        → with_identifier t.payee_data payee ≡ ok d
        → get_member (codes "compliance") d ≡ none
        → sign_payload crypto random payload private_key ≡ ok signature
        → payee_as_map lib (compliance_data (some signature)) ≡ ok ms
        → uma_payee_data crypto lib (ok n) random now request t
          ≡ ok (some (set_member (codes "compliance") (object ms) d))
    unfolding uma_payee_data get_signed_compliance_payee_data generate_nonce payee_payload
        add_compliance field_string
    payee_data_made d signature ms ep identified unsigned es em =
        simp (uma_fields-valid, ep, terms.has_key, terms.has_payee, es, identified, em, unsigned)

    response_made :
        (create_invoice : ℤ → Bytes → Option Bytes → Result (Option Bytes)) (d : PayeeData)
        (metadata payer_text invoice signature : Bytes) (ms : Members)
        → check_sending_currency request.sending_amount_currency_code (some code) ≡ ok tt
        → is_uma_pay_request request ≡ true
        → payer_identifier request.payer_data ≡ some payer
        → with_identifier t.payee_data payee ≡ ok d
        → get_member (codes "compliance") d ≡ none
        → payer_data_text lib request.payer_data ≡ ok payer_text
        → optional_invoice_uuid lib t.metadata request.invoice_uuid ≡ ok metadata
        → create_invoice (msats_amount lib.float request t) (metadata ++ payer_text) (some payee)
          ≡ ok (some invoice)
        → sign_payload crypto random payload private_key ≡ ok signature
        → payee_as_map lib (compliance_data (some signature)) ≡ ok ms
        → get_pay_req_response crypto lib create_invoice (ok n) random now request t
          ≡ ok (response d invoice ms)
    unfolding get_pay_req_response
    response_made create d metadata payer_text invoice signature ms sending is_uma ep identified
          unsigned ed em ei es ems =
        simp (
          terms.has_code,
          sending,
          currency_fields-valid,
          ed,
          em,
          terms.has_payee,
          ei,
          is_uma,
          payee_data_made d signature ms ep identified unsigned es ems,
          payment_made,
        )

    -- A UMA request of version 1 is answered whenever the invoice is made and the key signs; the JSON
    -- form of the answer is read back with the invoice and the payment information, and the sender
    -- accepts the signature of what was read, if the fields that UMA needs are given, the sending
    -- currency is accepted, the payer data and the metadata can be written, the payee data have no
    -- compliance data yet and are kept in JSON, the rate can be written, the time and the other numbers
    -- are int64 and kept by float64, the keys match, and the nonce is new and recent enough.
    pub pay_req_response_verified :
        (create_invoice : ℤ → Bytes → Option Bytes → Result (Option Bytes))
        (metadata payer_text invoice s : Bytes) (cache : InMemoryNonceCache)
        → IsSigner crypto random private_key
        → check_sending_currency request.sending_amount_currency_code (some code) ≡ ok tt
        → is_uma_pay_request request ≡ true
        → request.uma_major_version ≡ pos 1
        → payer_identifier request.payer_data ≡ some payer
        → IsGiven lib.float t.payee_data
        → payer_data_text lib request.payer_data ≡ ok payer_text
        → optional_invoice_uuid lib t.metadata request.invoice_uuid ≡ ok metadata
        → create_invoice (msats_amount lib.float request t) (metadata ++ payer_text) (some payee)
          ≡ ok (some invoice)
        → PaymentIsKept lib.float payment s
        → IsExactInt (unix_seconds now)
        → lookup (format_uint n) cache.cache ≡ none
        → before (unix (unix_seconds now)) cache.oldest_valid_timestamp ≡ false
        → (p : PayReqResponse) × (q : PayReqResponse) × (get_pay_req_response crypto lib
              create_invoice
              (ok n)
              random
              now
              request
              t
            ≡ ok p)
          × ((marshal_payreq_response lib.float p >>= unmarshal_payreq_response lib) ≡ ok q)
          × (q.encoded_invoice ≡ invoice)
          × (q.payment_info ≡ some payment)
          × ((verify_pay_req_response_signature crypto q vasp cache payer payee).0 ≡ ok tt)
    pay_req_response_verified create metadata payer_text invoice s cache signer sending is_uma
          version ep given ed em ei kept exact fresh young =
        let (signed_bytes, eb) = signer (crypto.sha256 payload) in
        let signature = encode_to_string signed_bytes in
        let signed : sign_payload crypto random payload private_key ≡ ok signature =
          unfold sign_payload sign_payload_to_bytes in rw eb refl in
        let c = compliance_data (some signature) in
        let (ms, as_map, read, stable) =
          payee-as_map lib floats c (unfold unix_seconds in wrap_i64-IsInt64 _, exact) in
        let (d, identified, (unsigned, data_stable)) =
          with_identifier-IsUnsigned lib.float t.payee_data payee given in
        let p = response d invoice ms in
        let q : PayReqResponse = record p { payee_data = sent_data p.payee_data } in
        let data_kept =
          set_member-HasStable lib.float (codes "compliance") (object ms) d
            (unfold marshal in
              subst (HasStable lib.float) (sym (marshal_members-id lib.float ms stable)) stable)
            data_stable in
        (
          p,
          q,
          response_made create d metadata payer_text invoice signature ms sending is_uma ep
              identified unsigned ed em ei signed as_map,
          response-unmarshal-marshal lib floats p
              (record { routes = tt; payment = (s, kept); payee = data_kept }) version,
          refl,
          refl,
          compliance_verified q c (format_uint n) (unix_seconds now) signature payer payee random
              cache (rw version refl) (sent_compliance lib.float d ms stable ∙ read) refl refl refl
              signed fresh young,
        )
