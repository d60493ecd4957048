-- ===== src/Uma/PayResponse.antt =====
-- The signed answer to a pay request in uma/uma.go: GetPayReqResponse and its helpers. What is drawn at
-- random and the time are arguments; the map of payee data that the caller gives and that is written to
-- is the one in the response.
pub mod Metadata
pub mod Check
pub mod Amounts
pub mod Checked
pub mod Given
pub mod Verified
pub mod Safe
use uma_go_sdk.Base.{
  ℕ, zero, suc, ◌+◌, ◌==◌, Bool, true, false, ◌&&◌, ◌||◌, Option, none, some, List, [], ◌∷◌, ◌++◌,
  Bytes, codes, eqb, if◌then◌else◌,
}
use uma_go_sdk.Base.Int.{ℤ, pos, eqb_ℤ, wrap_i64, ◌+ℤ◌, ◌-ℤ◌}
use uma_go_sdk.Go.Result.{
  Result, ok, err, panic, ◌>>=◌, ◌>>◌, guard, deref, missing_compliance_data,
  unsupported_sending_currency, invalid_currency_fields, missing_currency_fields,
  missing_payee_identifier, missing_signing_key, missing_utxos_or_node_key, v0_response_unsigned,
}
use uma_go_sdk.Go.Time.{Time, unix, unix_seconds}
use uma_go_sdk.Go.Json.{
  Json, Members, JsonLib, Float64, null, text, object, get_member, set_member, marshal_members,
  no_members, member,
}
use uma_go_sdk.Crypto.{Crypto}
use uma_go_sdk.NonceCache.{in_memory, InMemoryNonceCache}
use uma_go_sdk.Protocol.CounterParty
use uma_go_sdk.Protocol.CounterParty.{field_string}
use uma_go_sdk.Protocol.PubKeyResponse.{PubKeyResponse}
use uma_go_sdk.Protocol.LnurlpRequest.{is_set}
use uma_go_sdk.Protocol.PayerData.{payer_identifier}
use uma_go_sdk.Protocol.PayeeData.{
  PayeeData, CompliancePayeeData, payee_compliance, payee_as_map, payee_payload,
}
use uma_go_sdk.Protocol.PayRequest.{PayRequest, is_uma_pay_request}
use uma_go_sdk.Protocol.PayReqResponse.{PayReqResponse, PayReqResponsePaymentInfo}
use uma_go_sdk.Uma.Signing.{generate_nonce, sign_payload, verify_signature}
use uma_go_sdk.Uma.Verify.{with_nonce}
use uma_go_sdk.Uma.PayResponse.Metadata.{optional_invoice_uuid}

-- The parameters of `GetPayReqResponse` behind the request and the invoice creator. Of the payee data,
-- `none` is a nil pointer and `some none` a pointer to a nil map.
pub record ResponseTerms : Type 0 where
  pub metadata : Bytes
  pub receiving_currency_code : Option Bytes
  pub receiving_currency_decimals : Option ℤ
  pub conversion_rate : Option ℕ
  pub receiver_fees_millisats : Option ℤ
  pub receiver_channel_utxos : Option (List Bytes)
  pub receiver_node_pub_key : Option Bytes
  pub utxo_callback : Option Bytes
  pub payee_data : Option (Option PayeeData)
  pub receiving_vasp_private_key : Option Bytes
  pub payee_identifier : Option Bytes
  pub disposable : Option Bool
  pub success_action : Option (List (Bytes × Bytes))

-- The first check: a sending currency is the receiving currency, whose pointer is followed.
unfoldable pub check_sending_currency : Option Bytes → Option Bytes → Result (Unit {0})
check_sending_currency none receiving = ok tt
check_sending_currency (some sending) none = panic
check_sending_currency (some sending) (some receiving) =
    guard (eqb sending receiving) unsupported_sending_currency

nil_count {ℓ} : {A : Type ℓ} → Option A → ℕ
nil_count none = 1
nil_count (some a) = 0

unfoldable pub validate_pay_req_currency_fields : ResponseTerms → Result (Unit {0})
unfolding nil_count
validate_pay_req_currency_fields t =
    let num_nil_fields =
      nil_count t.receiving_currency_code
      + nil_count t.receiving_currency_decimals
      + nil_count t.conversion_rate
      + nil_count t.receiver_fees_millisats in
    guard (num_nil_fields == 0 || num_nil_fields == 4) invalid_currency_fields

unfoldable pub validate_uma_pay_req_fields : ResponseTerms → Result (Unit {0})
validate_uma_pay_req_fields t = do
  guard
      (is_set t.receiving_currency_code
        && is_set t.receiving_currency_decimals
        && is_set t.conversion_rate
        && is_set t.receiver_fees_millisats)
      missing_currency_fields
  guard (is_set t.payee_identifier) missing_payee_identifier
  guard (is_set t.receiving_vasp_private_key) missing_signing_key
  guard (is_set t.receiver_channel_utxos || is_set t.receiver_node_pub_key)
      missing_utxos_or_node_key

abbrev or_zero : Option ℤ → ℤ
or_zero none = pos 0
or_zero (some a) = a

module _ (float : Float64) where
  -- The conversion rate, or the float64 1.
  abbrev rate_or_one : Option ℕ → ℕ
  rate_or_one none = float.of_int (pos 1)
  rate_or_one (some rate) = rate

  -- The amount of the invoice in millisatoshis.
  unfoldable pub msats_amount : PayRequest → ResponseTerms → ℤ
  msats_amount request t =
      if is_set t.receiving_currency_code && is_set request.sending_amount_currency_code
      then wrap_i64 (
          float.to_int64
            (float.round (float.mul (float.of_int request.amount) (rate_or_one t.conversion_rate)))
          +ℤ or_zero t.receiver_fees_millisats)
      else request.amount

  -- The amount in the receiving currency, which version 0 does not have.
  unfoldable pub receiving_amount : PayRequest → ResponseTerms → Option ℤ
  receiving_amount request t =
      if eqb_ℤ request.uma_major_version (pos 0)
      then none
      else if is_set request.sending_amount_currency_code
      then some request.amount
      else some (
          float.to_int64 (
            float.round (
              float.div
                (float.of_int
                  (wrap_i64 (msats_amount request t -ℤ or_zero t.receiver_fees_millisats)))
                (rate_or_one t.conversion_rate))))

  -- The payment information; behind the code the pointers are followed.
  unfoldable pub payment_of :
      PayRequest → ResponseTerms → Option Bytes → Result (Option PayReqResponsePaymentInfo)
  payment_of request t none = ok none
  payment_of request t (some code) = do
    rate ← deref t.conversion_rate
    decimals ← deref t.receiving_currency_decimals
    fees ← deref t.receiver_fees_millisats
    ok (
        some (record {
          amount = receiving_amount request t;
          currency_code = code;
          multiplier = rate;
          decimals = decimals;
          exchange_fees_millisatoshi = fees;
        }))

-- m[k] == nil: no entry, or nil.
is_nil : Option Json → Bool
is_nil none = true
is_nil (some null) = true
is_nil (some _) = false

-- The identifier is put into payee data without one; missing payee data are made. A nil map has no
-- entries, and writing to it panics.
unfoldable pub with_identifier : Option (Option PayeeData) → Bytes → Result PayeeData
unfolding is_nil
with_identifier none identifier =
    ok (member (field_string CounterParty.identifier) (text identifier) no_members)
with_identifier (some none) identifier = panic
with_identifier (some (some d)) identifier =
    let key = field_string CounterParty.identifier in
    ok (if is_nil (get_member key d) then set_member key (text identifier) d else d)

-- The payee data of an answer that does not write to them: a nil map is taken as an empty one there.
abbrev given_payee_data : Option (Option PayeeData) → Option PayeeData
given_payee_data none = none
given_payee_data (some none) = some no_members
given_payee_data (some (some d)) = some d

-- The compliance data are put into payee data without them.
unfoldable pub add_compliance : JsonLib → PayeeData → CompliancePayeeData → Result PayeeData
unfolding is_nil
add_compliance lib d c =
    let key = field_string CounterParty.compliance in
    if is_nil (get_member key d)
    then (payee_as_map lib c >>= λ m. ok (set_member key (object m) d))
    else ok d

-- The payer data that are appended to the metadata.
unfoldable pub payer_data_text : JsonLib → Option Members → Result Bytes
payer_data_text lib none = ok []
payer_data_text lib (some d) = lib.write (object (marshal_members d))

module _ (crypto : Crypto) where
  -- The first two arguments are what is drawn: the nonce, and the bytes that the signature takes.
  unfoldable pub get_signed_compliance_payee_data :
      Result ℕ → Bytes → Time → Bytes → Bytes → Bytes → ResponseTerms → Result CompliancePayeeData
  get_signed_compliance_payee_data draw random now private_key payer payee t = do
    nonce ← generate_nonce draw
    let unsigned : CompliancePayeeData = record {
      node_pub_key = t.receiver_node_pub_key;
      utxos = t.receiver_channel_utxos;
      utxo_callback = t.utxo_callback;
      signature = none;
      signature_nonce = some nonce;
      signature_timestamp = some (unix_seconds now);
    }
    payload ← payee_payload (some unsigned) payer payee
    signature ← sign_payload crypto random payload private_key
    ok (record unsigned { signature = some signature })

  -- What a UMA request adds to the payee data.
  unfoldable pub uma_payee_data :
      JsonLib → Result ℕ → Bytes → Time → PayRequest → ResponseTerms → Result (Option PayeeData)
  uma_payee_data lib draw random now request t = do
    validate_uma_pay_req_fields t
    payer ← deref (payer_identifier request.payer_data)
    private_key ← deref t.receiving_vasp_private_key
    payee ← deref t.payee_identifier
    compliance ← get_signed_compliance_payee_data draw random now private_key payer payee t
    identified ← with_identifier t.payee_data payee
    d ← add_compliance lib identified compliance
    ok (some d)

  -- `create_invoice` is the method of the invoice creator: the amount, the metadata and the receiver.
  unfoldable pub get_pay_req_response :
      JsonLib
      → (ℤ → Bytes → Option Bytes → Result (Option Bytes))
      → Result ℕ
      → Bytes
      → Time
      → PayRequest
      → ResponseTerms
      → Result PayReqResponse
  get_pay_req_response lib create_invoice draw random now request t = do
    check_sending_currency request.sending_amount_currency_code t.receiving_currency_code
    validate_pay_req_currency_fields t
    payer_data ← payer_data_text lib request.payer_data
    metadata ← optional_invoice_uuid lib t.metadata request.invoice_uuid
    invoice ←
        create_invoice (msats_amount lib.float request t) (metadata ++ payer_data)
          t.payee_identifier
    payee_data ←
        (if is_uma_pay_request request
          then uma_payee_data lib draw random now request t
          else ok (given_payee_data t.payee_data))
    payment_info ← payment_of lib.float request t t.receiving_currency_code
    encoded_invoice ← deref invoice
    ok (record {
      encoded_invoice = encoded_invoice;
      routes = some [];
      payment_info = payment_info;
      payee_data = payee_data;
      disposable = t.disposable;
      success_action = t.success_action;
      uma_major_version = request.uma_major_version;
    })
