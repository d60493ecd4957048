-- ===== src/Uma/PayRequest.antt =====
-- The signed pay request of uma/uma.go: GetUmaPayRequest, GetUmaPayRequestWithInvoice, their helpers,
-- ParsePayRequest and VerifyPayReqSignature. What is drawn at random and the time are arguments.
pub mod Carried
pub mod Verified
use uma_go_sdk.Base.{
  ℕ, Bool, true, false, Option, none, some, List, [], ◌∷◌, Bytes, codes, if◌then◌else◌,
}
use uma_go_sdk.Base.Int.{ℤ}
use uma_go_sdk.Go.Result.{Result, ok, err, panic, ◌>>=◌, missing_compliance_data}
use uma_go_sdk.Go.Strings.{join}
use uma_go_sdk.Go.Strconv.{format_int}
use uma_go_sdk.Go.Time.{Time, unix, unix_seconds}
use uma_go_sdk.Go.Hex.{encode_to_string}
use uma_go_sdk.Go.Json.{Json, Members, JsonLib, text, object, string_pointer, no_members, member}
use uma_go_sdk.Crypto.{Crypto}
use uma_go_sdk.NonceCache.Interface.{NonceCache}
use uma_go_sdk.Protocol.KycStatus.{KycStatus}
use uma_go_sdk.Protocol.CounterParty
use uma_go_sdk.Protocol.CounterParty.{CounterPartyDataOptions, field_string}
use uma_go_sdk.Protocol.PubKeyResponse.{PubKeyResponse}
use uma_go_sdk.Protocol.PayerData.{
  CompliancePayerData, TravelRuleFormat, payer_compliance, payer_as_map,
}
use uma_go_sdk.Protocol.PayRequest.{
  PayRequest, zero_pay_request, pay_request_payload, unmarshal_pay_request,
}
use uma_go_sdk.Uma.LnurlpAnswer.{require_uma_fields}
use uma_go_sdk.Uma.Signing.{generate_nonce, sign_payload, verify_signature}
use uma_go_sdk.Uma.Verify.{with_nonce}

-- The parameters of `GetUmaPayRequestWithInvoice`.
pub record PayTerms : Type 0 where
  pub amount : ℤ
  pub receiver_encryption_pub_key : Bytes
  pub sending_vasp_private_key : Bytes
  pub receiving_currency_code : Bytes
  pub is_amount_in_receiving_currency : Bool
  pub payer_identifier : Bytes
  pub uma_major_version : ℤ
  pub payer_name : Option Bytes
  pub payer_email : Option Bytes
  pub tr_info : Option Bytes
  pub tr_info_format : Option TravelRuleFormat
  pub payer_kyc_status : KycStatus
  pub payer_utxos : Option (List Bytes)
  pub payer_node_pub_key : Option Bytes
  pub utxo_callback : Bytes
  -- `none` is a nil pointer, `some none` a pointer to a nil map.
  pub requested_payee_data : Option (Option CounterPartyDataOptions)
  pub comment : Option Bytes
  pub invoice_uuid : Option Bytes

-- The payer data: the name and the email are pointers in the map.
unfoldable pub payer_members : PayTerms → Members → Members
payer_members terms compliance =
    member (field_string CounterParty.name) (string_pointer terms.payer_name) (
      member (field_string CounterParty.email) (string_pointer terms.payer_email) (
        member (field_string CounterParty.identifier) (text terms.payer_identifier)
          (member (field_string CounterParty.compliance) (object compliance) no_members)))

-- The request with these options and compliance data.
unfoldable pub request_with : PayTerms → CounterPartyDataOptions → Members → PayRequest
request_with terms options compliance = record {
  sending_amount_currency_code =
      if terms.is_amount_in_receiving_currency then some terms.receiving_currency_code else none;
  receiving_currency_code = some terms.receiving_currency_code;
  amount = terms.amount;
  payer_data = some (payer_members terms compliance);
  requested_payee_data = some options;
  comment = terms.comment;
  invoice_uuid = terms.invoice_uuid;
  uma_major_version = terms.uma_major_version;
}

module _ (crypto : Crypto) where
  unfoldable pub encrypt_tr_info : Bytes → Bytes → Bytes → Result Bytes
  encrypt_tr_info random tr_info receiver_key = do
    pub_key ← crypto.parse_encryption_key receiver_key
    encrypted ← crypto.encrypt random pub_key tr_info
    ok (encode_to_string encrypted)

  -- The travel rule information is encrypted when there is some.
  unfoldable pub encrypt_optional : Bytes → Option Bytes → Bytes → Result (Option Bytes)
  encrypt_optional random none receiver_key = ok none
  encrypt_optional random (some tr_info) receiver_key =
      encrypt_tr_info random tr_info receiver_key >>= λ s. ok (some s)

  -- The first three arguments are what is drawn: the nonce, and the bytes that the encryption and the
  -- signature take.
  unfoldable pub get_signed_compliance_payer_data :
      Result ℕ → Bytes → Bytes → Time → PayTerms → Result CompliancePayerData
  get_signed_compliance_payer_data draw random random' now terms = do
    nonce ← generate_nonce draw
    info ← encrypt_optional random terms.tr_info terms.receiver_encryption_pub_key
    signature ←
        sign_payload crypto random'
          (join b'|' (terms.payer_identifier ∷ nonce ∷ format_int (unix_seconds now) ∷ []))
          terms.sending_vasp_private_key
    ok (record {
      utxos = terms.payer_utxos;
      node_pub_key = terms.payer_node_pub_key;
      kyc_status = terms.payer_kyc_status;
      encrypted_travel_rule_info = info;
      travel_rule_format = terms.tr_info_format;
      signature = signature;
      signature_nonce = nonce;
      signature_timestamp = unix_seconds now;
      utxo_callback = terms.utxo_callback;
    })

  unfoldable pub get_uma_pay_request_with_invoice :
      JsonLib → Result ℕ → Bytes → Bytes → Time → PayTerms → Result PayRequest
  get_uma_pay_request_with_invoice lib draw random random' now terms = do
    compliance ← get_signed_compliance_payer_data draw random random' now terms
    options ← require_uma_fields terms.requested_payee_data
    compliance_map ← payer_as_map lib compliance
    ok (request_with terms options compliance_map)

  unfoldable pub get_uma_pay_request :
      JsonLib → Result ℕ → Bytes → Bytes → Time → PayTerms → Result PayRequest
  get_uma_pay_request lib draw random random' now terms =
      get_uma_pay_request_with_invoice lib draw random random' now
        (record terms { invoice_uuid = none })

  -- The check when the compliance data are read.
  unfoldable pub verify_compliance :
      {S : Type 0} ⦃N : NonceCache S⦄
      → PayRequest
      → PubKeyResponse
      → S
      → Result (Option CompliancePayerData)
      → Result (Unit {0}) × S
  unfolding with_nonce
  verify_compliance query other_vasp cache (ok (some c)) =
      with_nonce cache c.signature_nonce (unix c.signature_timestamp) (
        pay_request_payload query >>= λ payload.
        verify_signature crypto payload c.signature other_vasp)
  verify_compliance query other_vasp cache (ok none) = (err missing_compliance_data, cache)
  verify_compliance query other_vasp cache (err e) = (err e, cache)
  verify_compliance query other_vasp cache panic = (panic, cache)

  unfoldable pub verify_pay_req_signature :
      {S : Type 0} ⦃N : NonceCache S⦄ → PayRequest → PubKeyResponse → S → Result (Unit {0}) × S
  unfolding verify_compliance
  verify_pay_req_signature query other_vasp cache =
      verify_compliance query other_vasp cache (payer_compliance query.payer_data)

-- The document of the bytes that are parsed.
unfoldable pub parse_pay_request : JsonLib → Bytes → Result PayRequest
parse_pay_request lib bytes = lib.read bytes >>= λ v. unmarshal_pay_request lib zero_pay_request v
