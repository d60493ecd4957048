-- ===== src/Uma/Exchange.antt =====
-- The two messages of a payment in uma/uma.go, from the sender to the receiver and back.
use uma_go_sdk.Base.{
  ℕ, true, false, ◌≡◌, ◌≢◌, refl, ◌∙◌, Option, none, some, [], ◌++◌, Bytes, eqb_refl,
}
use uma_go_sdk.Base.Int.{ℤ, pos, eqb_ℤ}
use uma_go_sdk.Go.Result.{Result, ok, ◌>>=◌}
use uma_go_sdk.Go.Strconv.{format_uint}
use uma_go_sdk.Go.Time.{Time, unix, unix_seconds, before}
use uma_go_sdk.Go.Map.{lookup}
use uma_go_sdk.Go.Json.{Json, Members, JsonLib, object, marshal_members}
use uma_go_sdk.Go.Json.Laws.{IsFloat64, IsExactInt, IsKeptInt}
use uma_go_sdk.Crypto.{Crypto, IsKeyPair, IsSigner}
use uma_go_sdk.NonceCache.{in_memory, InMemoryNonceCache}
use uma_go_sdk.Protocol.KycStatus.{known}
use uma_go_sdk.Protocol.PubKeyResponse.{PubKeyResponse, signing_pub_key}
use uma_go_sdk.Protocol.PayerData.RoundTrip.{RuleIsWritable}
use uma_go_sdk.Protocol.PayRequest.{
  PayRequest, zero_pay_request, marshal_pay_request, unmarshal_pay_request,
}
use uma_go_sdk.Protocol.PayRequest.RoundTrip.{CodeIsWritable}
use uma_go_sdk.Protocol.PayReqResponse.{PayReqResponse, PayReqResponsePaymentInfo}
use uma_go_sdk.Protocol.PayReqResponse.Json.{marshal_payreq_response, unmarshal_payreq_response}
use uma_go_sdk.Protocol.PayReqResponse.RoundTrip.{PaymentIsKept}
use uma_go_sdk.Uma.PayRequest.{
  PayTerms, encrypt_optional, get_uma_pay_request_with_invoice, verify_pay_req_signature,
}
use uma_go_sdk.Uma.PayRequest.Verified.{pay_request_verified}
use uma_go_sdk.Uma.PayResponse.Metadata.{optional_invoice_uuid}
use uma_go_sdk.Uma.PayResponse.{
  ResponseTerms, check_sending_currency, msats_amount, receiving_amount, payer_data_text,
  get_pay_req_response,
}
use uma_go_sdk.Uma.PayResponse.Check.{verify_pay_req_response_signature}
use uma_go_sdk.Uma.PayResponse.Given.{IsGiven, HasTerms}
use uma_go_sdk.Uma.PayResponse.Verified.{pay_req_response_verified}

-- A JSON library that writes every document, and an invoice creator that makes every invoice.
abbrev pub IsWriter : JsonLib → Type 0
IsWriter lib = (v : Json) → (s : Bytes) × (lib.write v ≡ ok s)

abbrev pub IsCreator : (ℤ → Bytes → Option Bytes → Result (Option Bytes)) → Type 0
IsCreator create_invoice =
    (amount : ℤ) (metadata : Bytes) (receiver : Option Bytes)
    → (invoice : Bytes) × (create_invoice amount metadata receiver ≡ ok (some invoice))

payer_text :
    (lib : JsonLib) (d : Option Members)
    → IsWriter lib
    → (s : Bytes) × (payer_data_text lib d ≡ ok s)
unfolding payer_data_text
payer_text lib none writer = ([], refl)
payer_text lib (some d) writer = writer (object (marshal_members d))

sending_accepted :
    (sending : Option Bytes) (code : Bytes)
    → sending ≡ some code
    → check_sending_currency sending (some code) ≡ ok tt
unfolding check_sending_currency
sending_accepted sending code e = rw e (rw (eqb_refl code) refl)

amount_as_sent :
    (lib : JsonLib) (q : PayRequest) (t : ResponseTerms) (code : Bytes) (amount : ℤ)
    → q.uma_major_version ≡ pos 1
    → q.sending_amount_currency_code ≡ some code
    → q.amount ≡ amount
    → receiving_amount lib.float q t ≡ some amount
unfolding receiving_amount
amount_as_sent lib q t code amount ev es ea = simp (ev, es, ea)

without_uuid :
    (lib : JsonLib) (metadata : Bytes) (uuid : Option Bytes)
    → uuid ≡ none
    → optional_invoice_uuid lib metadata uuid ≡ ok metadata
unfolding optional_invoice_uuid
without_uuid lib metadata uuid e = rw e refl

-- The payment information of a payment of this amount.
abbrev pub agreed : PayTerms → ℕ → ℤ → ℤ → PayReqResponsePaymentInfo
agreed terms rate decimals fees = record {
  amount = some terms.amount;
  currency_code = terms.receiving_currency_code;
  multiplier = rate;
  decimals = decimals;
  exchange_fees_millisatoshi = fees;
}

-- What a VASP brings to an exchange: its key pair, the other's view of its keys, and what it draws.
pub record Party (crypto : Crypto) : Type 0 where
  pub private_key : Bytes
  pub public_key : Bytes
  pub pair : IsKeyPair crypto private_key public_key
  pub keys : PubKeyResponse
  pub has_key : signing_pub_key crypto keys ≡ ok public_key
  pub nonce : ℕ
  pub random : Bytes
  pub signs : IsSigner crypto random private_key
  pub now : Time
  pub exact : IsExactInt (unix_seconds now)

-- A cache that accepts what the other party signs.
pub record Accepts {crypto : Crypto} (cache : InMemoryNonceCache) (other : Party crypto)
    : Type 0 where
  pub fresh : lookup (format_uint other.nonce) cache.cache ≡ none
  pub young : before (unix (unix_seconds other.now)) cache.oldest_valid_timestamp ≡ false

-- The terms of the sender, as far as the pay request needs them.
pub record IsPayable (lib : JsonLib) (terms : PayTerms) (private_key : Bytes) : Type 0 where
  pub own_key : terms.sending_vasp_private_key ≡ private_key
  pub version : eqb_ℤ terms.uma_major_version (pos 0) ≡ false
  pub identifier : terms.payer_identifier ≢ []
  -- The options that are written to are not a nil map.
  pub options : terms.requested_payee_data ≢ some none
  pub status : known terms.payer_kyc_status ≡ terms.payer_kyc_status
  pub rule : RuleIsWritable lib terms.tr_info_format
  pub code : CodeIsWritable (some terms.receiving_currency_code)
  pub amount : IsKeptInt terms.amount
  pub receiving : terms.is_amount_in_receiving_currency ≡ true

module _ (crypto : Crypto) (lib : JsonLib) where
  -- The messages of a payment, each read and accepted, and the payment information at the end.
  abbrev pub IsAgreed :
      Party crypto
      → Party crypto
      → InMemoryNonceCache
      → InMemoryNonceCache
      → PayTerms
      → Bytes
      → ResponseTerms
      → ℤ
      → ℕ
      → ℤ
      → Bytes
      → (ℤ → Bytes → Option Bytes → Result (Option Bytes))
      → Type 0
  IsAgreed sender receiver cache cache' terms random t decimals rate fees payee create_invoice =
      (p : PayRequest) × (q : PayRequest) × (a : PayReqResponse) × (b : PayReqResponse)
      × (get_uma_pay_request_with_invoice crypto lib (ok sender.nonce) random sender.random
            sender.now terms
          ≡ ok p)
      × (unmarshal_pay_request lib zero_pay_request (marshal_pay_request p) ≡ ok q)
      × ((verify_pay_req_signature crypto q sender.keys cache).0 ≡ ok tt)
      × (get_pay_req_response crypto lib create_invoice (ok receiver.nonce) receiver.random
            receiver.now q t
          ≡ ok a)
      × ((marshal_payreq_response lib.float a >>= unmarshal_payreq_response lib) ≡ ok b)
      × ((verify_pay_req_response_signature crypto b receiver.keys cache' terms.payer_identifier
            payee).0
          ≡ ok tt)
      × (b.payment_info ≡ some (agreed terms rate decimals fees))

module _ (crypto : Crypto) (lib : JsonLib) (floats : IsFloat64 lib.float)
    (writer : IsWriter lib) where
  -- A payment whose amount is in the receiving currency is agreed on: the sender makes a request, the
  -- receiver reads it, accepts its signature and answers it, the sender reads the answer and accepts
  -- its signature, and the payment information it has read is the amount and the currency it asked
  -- for, at the rate, the decimals and the fees of the receiver; if the terms of both are as needed,
  -- the travel rule information is encrypted, all invoices are made, all documents are written, and
  -- each accepts the other's key, nonce and time.
  pub exchange_agreed :
      (sender receiver : Party crypto) (cache cache' : InMemoryNonceCache) (terms : PayTerms)
      (random : Bytes) (info : Option Bytes) (t : ResponseTerms) (decimals : ℤ) (rate : ℕ)
      (fees : ℤ) (payee s : Bytes)
      (create_invoice : ℤ → Bytes → Option Bytes → Result (Option Bytes))
      → IsPayable lib terms sender.private_key
      → encrypt_optional crypto random terms.tr_info terms.receiver_encryption_pub_key ≡ ok info
      → Accepts cache sender
      → HasTerms t terms.receiving_currency_code decimals rate fees payee receiver.private_key
      → IsGiven lib.float t.payee_data
      → PaymentIsKept lib.float (agreed terms rate decimals fees) s
      → IsCreator create_invoice
      → Accepts cache' receiver
      → IsAgreed crypto lib sender receiver cache cache' terms random t decimals rate fees payee
          create_invoice
  exchange_agreed sender receiver cache cache' terms random info t decimals rate fees payee s create
        payable encrypted accepts has given kept creates accepts' =
      let (p, q, made, read, amount, code, sending, version, uuid, is_uma, payer, verified) =
        pay_request_verified crypto sender.private_key sender.public_key sender.pair sender.keys
          sender.has_key lib floats sender.nonce random sender.random sender.now terms cache info
          sender.signs payable.own_key encrypted payable.version payable.identifier payable.options
          payable.status payable.rule payable.code payable.amount.0 sender.exact accepts.fresh
          accepts.young in
      let sent : q.sending_amount_currency_code ≡ some terms.receiving_currency_code =
        sending ∙ rw payable.receiving refl in
      let same =
        amount_as_sent lib q t terms.receiving_currency_code terms.amount version sent amount in
      let (text, written) = payer_text lib q.payer_data writer in
      let (invoice, created) =
        creates (msats_amount lib.float q t) (t.metadata ++ text) (some payee) in
      let (a, b, answered, read', invoice_read, payment, verified') =
        pay_req_response_verified crypto receiver.private_key receiver.public_key receiver.pair
          receiver.keys receiver.has_key lib floats receiver.nonce receiver.random receiver.now q t
          terms.receiving_currency_code decimals rate fees terms.payer_identifier payee has create
          t.metadata text invoice s cache' receiver.signs
          (sending_accepted q.sending_amount_currency_code terms.receiving_currency_code sent)
          is_uma version payer given written (without_uuid lib t.metadata q.invoice_uuid uuid)
          created (rw same kept) receiver.exact accepts'.fresh accepts'.young in
      (p, q, a, b, made, read, verified, answered, read', verified', payment ∙ rw same refl)
