-- ===== src/Uma/Session.antt =====
-- The four signed messages between two VASPs in uma/uma.go: the sender's query and the receiver's
-- answer, then a pay request and its response, with the nonce caches that the checks leave.
use uma_go_sdk.Base.{
  ℕ, Bool, true, ◌≡◌, ◌≢◌, arith, Option, none, some, List, [], ◌∷◌, ◌++◌, Bytes, eqb_iff, Lacks,
}
use uma_go_sdk.Base.Int.{ℤ}
use uma_go_sdk.Go.Result.{Result, ok, ◌>>=◌}
use uma_go_sdk.Go.Strconv.{format_uint}
use uma_go_sdk.Go.Time.{Time, unix}
use uma_go_sdk.Go.Map.{lookup, lookup-insert}
use uma_go_sdk.Go.Url.{Url}
use uma_go_sdk.Go.Json.{JsonLib}
use uma_go_sdk.Go.Json.Laws.{IsFloat64, IsOptionalInt64}
use uma_go_sdk.Crypto.{Crypto}
use uma_go_sdk.Version.{select_lower_version, uma_protocol_version, is_version_supported}
use uma_go_sdk.NonceCache.{in_memory, InMemoryNonceCache, check_and_save_nonce}
use uma_go_sdk.Protocol.KycStatus.{KycStatus, known}
use uma_go_sdk.Protocol.Currency.{Currency}
use uma_go_sdk.Protocol.LnurlpRequest.{
  LnurlpRequest, UmaLnurlpRequest, as_uma_request, signable_payload,
}
use uma_go_sdk.Protocol.LnurlpResponse.{
  LnurlpResponse, UmaLnurlpResponse, as_uma_response, response_payload,
}
use uma_go_sdk.Protocol.LnurlpResponse.Json.{marshal_lnurlp_response, unmarshal_lnurlp_response}
use uma_go_sdk.Protocol.LnurlpResponse.Json.RoundTrip.{CurrenciesAreKept}
use uma_go_sdk.Protocol.PayReqResponse.RoundTrip.{PaymentIsKept}
use uma_go_sdk.Uma.Signing.{verify_signature}
use uma_go_sdk.Uma.Lnurlp.UrlRoundTrip.{IsUsername}
use uma_go_sdk.Uma.Lnurlp.{get_signed_lnurlp_request_url, parse_lnurlp_request, or_default}
use uma_go_sdk.Uma.LnurlpAnswer.{AnswerTerms, get_lnurlp_response}
use uma_go_sdk.Uma.LnurlpAnswer.Verified.Received.{answer_received}
use uma_go_sdk.Uma.EndToEnd.{signed_request_verified}
use uma_go_sdk.Uma.Verify.{
  with_nonce, verify_uma_lnurlp_query_signature, verify_uma_lnurlp_response_signature,
}
use uma_go_sdk.Uma.PayRequest.{PayTerms, encrypt_optional}
use uma_go_sdk.Uma.PayResponse.{ResponseTerms}
use uma_go_sdk.Uma.PayResponse.Given.{IsGiven, HasTerms}
use uma_go_sdk.Uma.Exchange.{
  Party, Accepts, IsPayable, IsWriter, IsCreator, IsAgreed, agreed, exchange_agreed,
}

-- What a check leaves of the nonces that it does not save, and of the oldest valid timestamp.
with_nonce_keeps :
    (c : InMemoryNonceCache) (nonce other : Bytes) (t : Time) (r : Result (Unit {0}))
    → nonce ≢ other
    → lookup other c.cache ≡ none
    → (lookup other (with_nonce c nonce t r).1.cache ≡ none)
      × ((with_nonce c nonce t r).1.oldest_valid_timestamp ≡ c.oldest_valid_timestamp)
unfolding with_nonce check_and_save_nonce
with_nonce_keeps c nonce other t r ne new =
    (ground (arith, lookup-insert nonce other t c.cache, eqb_iff nonce other), ground arith)

module _ {crypto : Crypto} (cache : InMemoryNonceCache) (other : Party crypto)
    (accepts : Accepts cache other) where
  saved-Accepts :
      (nonce : Bytes) (t : Time) (r : Result (Unit {0})) (first : Party crypto)
      → nonce ≡ format_uint first.nonce
      → format_uint first.nonce ≢ format_uint other.nonce
      → Accepts (with_nonce cache nonce t r).1 other
  saved-Accepts nonce t r first same ne =
      let (new, old) =
        with_nonce_keeps cache nonce (format_uint other.nonce) t r (rw same ne) accepts.fresh in
      record { fresh = new; young = rw old accepts.young }

  query-Accepts :
      (u : UmaLnurlpRequest) (first : Party crypto)
      → u.nonce ≡ format_uint first.nonce
      → format_uint first.nonce ≢ format_uint other.nonce
      → Accepts (verify_uma_lnurlp_query_signature crypto u first.keys cache).1 other
  unfolding verify_uma_lnurlp_query_signature
  query-Accepts u first =
      saved-Accepts u.nonce u.timestamp
        (signable_payload u.lnurlp_request >>= λ payload.
          verify_signature crypto payload u.signature first.keys)
        first

  answer-Accepts :
      (w : UmaLnurlpResponse) (first : Party crypto)
      → w.compliance.nonce ≡ format_uint first.nonce
      → format_uint first.nonce ≢ format_uint other.nonce
      → Accepts (verify_uma_lnurlp_response_signature crypto w first.keys cache).1 other
  unfolding verify_uma_lnurlp_response_signature
  answer-Accepts w first =
      saved-Accepts w.compliance.nonce (unix w.compliance.timestamp)
        (verify_signature crypto (response_payload w) w.compliance.signature first.keys) first

-- What the sender asks with: a user name and a domain, its own domain, and a version that is supported.
pub record IsAskable (user domain vasp_domain : Bytes) (override : Option Bytes) : Type 0 where
  pub username : IsUsername user
  pub no_at : Lacks b'@' domain
  pub own_domain : vasp_domain ≢ []
  pub supported : is_version_supported (or_default override uma_protocol_version) ≡ true

-- What the receiver answers with.
pub record IsAnswerable (lib : JsonLib) (terms : AnswerTerms) (version chosen : Bytes)
    (subject : Bool) (status : KycStatus) (currencies : List Currency) (private_key : Bytes)
    : Type 0 where
  pub lower : select_lower_version version uma_protocol_version ≡ ok chosen
  pub own_key : terms.private_key_bytes ≡ some private_key
  pub has_subject : terms.requires_travel_rule_info ≡ some subject
  pub has_status : terms.receiver_kyc_status ≡ some status
  -- The options that are written to are not a nil map.
  pub has_options : terms.payer_data_options ≢ some none
  pub has_currencies : terms.currency_options ≡ some currencies
  pub kept : CurrenciesAreKept lib.float (some currencies)
  pub chars : IsOptionalInt64 terms.comment_chars_allowed
  pub constant : known status ≡ status

module _ (crypto : Crypto) (lib : JsonLib) (floats : IsFloat64 lib.float)
    (writer : IsWriter lib) where
  -- A whole session succeeds: the sender makes a query, the receiver parses it, accepts its signature
  -- and answers it in the lower version, the sender reads the answer and accepts its signature, and
  -- with the nonce caches that these two checks leave, a payment whose amount is in the receiving
  -- currency is agreed on; if what both bring is as needed, the travel rule information is encrypted,
  -- all invoices are made, all documents are written, each accepts the other's keys, nonces and times
  -- at the start, and neither draws one nonce twice.
  pub session_agreed :
      (sender sender' receiver receiver' : Party crypto) (cache cache' : InMemoryNonceCache)
      (user domain vasp_domain : Bytes) (traveller : Bool) (override : Option Bytes)
      (answer_terms : AnswerTerms) (chosen : Bytes) (subject : Bool) (status : KycStatus)
      (currencies : List Currency) (terms : PayTerms) (random : Bytes) (info : Option Bytes)
      (t : ResponseTerms) (decimals : ℤ) (rate : ℕ) (fees : ℤ) (payee s : Bytes)
      (create_invoice : ℤ → Bytes → Option Bytes → Result (Option Bytes))
      → IsAskable user domain vasp_domain override
      → IsAnswerable lib answer_terms
          (or_default override uma_protocol_version)
          chosen
          subject
          status
          currencies
          receiver.private_key
      → IsPayable lib terms sender'.private_key
      → encrypt_optional crypto random terms.tr_info terms.receiver_encryption_pub_key ≡ ok info
      → HasTerms t terms.receiving_currency_code decimals rate fees payee receiver'.private_key
      → IsGiven lib.float t.payee_data
      → PaymentIsKept lib.float (agreed terms rate decimals fees) s
      → IsCreator create_invoice
      → Accepts cache sender
      → Accepts cache sender'
      → Accepts cache' receiver
      → Accepts cache' receiver'
      → format_uint sender.nonce ≢ format_uint sender'.nonce
      → format_uint receiver.nonce ≢ format_uint receiver'.nonce
      → (url : Url) × (q : LnurlpRequest) × (u : UmaLnurlpRequest) × (a : LnurlpResponse)
        × (b : LnurlpResponse) × (w : UmaLnurlpResponse) × (get_signed_lnurlp_request_url crypto
              (ok sender.nonce)
              sender.random
              sender.now
              sender.private_key
              (user ++ b'@' ∷ domain)
              vasp_domain
              traveller
              override
            ≡ ok url)
        × (parse_lnurlp_request url ≡ ok q)
        × (as_uma_request q ≡ ok (some u))
        × ((verify_uma_lnurlp_query_signature crypto u sender.keys cache).0 ≡ ok tt)
        × (get_lnurlp_response crypto
              (ok receiver.nonce)
              receiver.random
              receiver.now
              q
              answer_terms
            ≡ ok a)
        × ((marshal_lnurlp_response lib.float a >>= unmarshal_lnurlp_response lib.float) ≡ ok b)
        × (as_uma_response b ≡ ok (some w))
        × (w.uma_version ≡ chosen)
        × ((verify_uma_lnurlp_response_signature crypto w receiver.keys cache').0 ≡ ok tt)
        × IsAgreed crypto lib sender' receiver'
            (verify_uma_lnurlp_query_signature crypto u sender.keys cache).1
            (verify_uma_lnurlp_response_signature crypto w receiver.keys cache').1
            terms
            random
            t
            decimals
            rate
            fees
            payee
            create_invoice
  session_agreed sender sender' receiver receiver' cache cache' user domain vasp_domain traveller
        override answer_terms chosen subject status currencies terms random info t decimals rate
        fees payee s create askable answerable payable encrypted has given kept creates first second
        first' second' new new' =
      let (url, q, u, made, parsed, is_uma, whole, version, nonce, verified) =
        signed_request_verified crypto sender.private_key sender.public_key sender.pair sender.keys
          sender.has_key user domain vasp_domain traveller override sender.nonce sender.random
          sender.now cache sender.signs askable.username askable.no_at askable.own_domain
          askable.supported first.fresh first.young in
      let (a, b, w, answered, read, is_response, lower, nonce', mandatory, mandatory', verified') =
        answer_received crypto receiver.private_key receiver.public_key receiver.pair receiver.keys
          receiver.has_key receiver.nonce receiver.random receiver.now q answer_terms lib.float
          floats cache' (or_default override uma_protocol_version) chosen subject status currencies
          whole version answerable.lower answerable.own_key answerable.has_subject
          answerable.has_status answerable.has_currencies answerable.has_options answerable.kept
          answerable.chars answerable.constant receiver.signs first'.fresh first'.young in
      (
        url,
        q,
        u,
        a,
        b,
        w,
        made,
        parsed,
        is_uma,
        verified,
        answered,
        read,
        is_response,
        lower,
        verified',
        exchange_agreed crypto lib floats writer sender' receiver'
            (verify_uma_lnurlp_query_signature crypto u sender.keys cache).1
            (verify_uma_lnurlp_response_signature crypto w receiver.keys cache').1 terms random info
            t decimals rate fees payee s create payable encrypted
            (query-Accepts cache sender' second u sender nonce new) has given kept creates
            (answer-Accepts cache' receiver' second' w receiver nonce' new'),
      )
