-- ===== src/Protocol/PayRequest.antt =====
-- uma/protocol/pay_request.go: the data, the JSON forms of the two versions, and the signed payload.
pub mod Query
pub mod RoundTrip
use uma_go_sdk.Base.{
  ℕ, Bool, true, false, ◌&&◌, ◌||◌, Option, none, some, List, [], ◌∷◌, ◌++◌, Bytes, codes, eqb,
  if◌then◌else◌,
}
use uma_go_sdk.Base.Int.{ℤ, pos, eqb_ℤ}
use uma_go_sdk.Go.Result.{
  Result, ok, err, panic, ◌>>=◌, or_error, bad_number, missing_amount, invalid_amount,
  missing_payer_data, missing_identifier, missing_compliance_data,
}
use uma_go_sdk.Go.Strings.{split, join}
use uma_go_sdk.Go.Strconv.{format_int, parse_int}
use uma_go_sdk.Go.Json.{
  Json, Members, JsonLib, null, boolean, number, text, array, object, string_pointer, get_member,
  struct_of, marshal_members, to_interface_members,
}
use uma_go_sdk.Go.Json.Decode.{
  decode_text, decode_int, decode_pointer, decode_map, decode_struct, encode_pointer, encode_int,
}
use uma_go_sdk.Protocol.CounterParty.{CounterPartyDataOptions}
use uma_go_sdk.Protocol.CounterParty.Json.{decode_options, options_json}
use uma_go_sdk.Protocol.LnurlpRequest.{is_set}
use uma_go_sdk.Protocol.PayerData.{
  PayerData, CompliancePayerData, payer_compliance, payer_identifier,
}

pub record PayRequest : Type 0 where
  pub sending_amount_currency_code : Option Bytes
  pub receiving_currency_code : Option Bytes
  pub amount : ℤ
  pub payer_data : Option PayerData
  pub requested_payee_data : Option CounterPartyDataOptions
  pub comment : Option Bytes
  pub invoice_uuid : Option Bytes
  pub uma_major_version : ℤ

-- var p PayRequest
abbrev pub zero_pay_request : PayRequest
zero_pay_request = record {
  sending_amount_currency_code = none;
  receiving_currency_code = none;
  amount = pos 0;
  payer_data = none;
  requested_payee_data = none;
  comment = none;
  invoice_uuid = none;
  uma_major_version = pos 0;
}

pub record V0PayRequest : Type 0 where
  pub receiving_currency_code : Option Bytes
  pub amount : ℤ
  pub payer_data : Option PayerData
  pub requested_payee_data : Option CounterPartyDataOptions
  pub comment : Option Bytes

pub record V1PayRequest : Type 0 where
  pub receiving_currency_code : Option Bytes
  pub amount : Bytes
  pub payer_data : Option PayerData
  pub requested_payee_data : Option CounterPartyDataOptions
  pub comment : Option Bytes
  pub invoice_uuid : Option Bytes

unfoldable pub is_uma : Result (Option CompliancePayerData) → Option Bytes → Bool
is_uma (ok compliance) identifier = is_set compliance && is_set identifier
is_uma _ identifier = false

unfoldable pub is_uma_pay_request : PayRequest → Bool
unfolding is_uma
is_uma_pay_request p =
    is_set p.payer_data && is_uma (payer_compliance p.payer_data) (payer_identifier p.payer_data)

abbrev pub map_json : Members → Json
map_json ms = object (marshal_members ms)

unfoldable pub v0_fields : V0PayRequest → List (Bytes × Option Json)
v0_fields r =
    (codes "currency", encode_pointer text r.receiving_currency_code)
    ∷ (codes "amount", some (encode_int r.amount))
    ∷ (codes "payerData", encode_pointer map_json r.payer_data)
    ∷ (codes "payeeData", encode_pointer options_json r.requested_payee_data)
    ∷ (codes "comment", encode_pointer text r.comment)
    ∷ []

unfoldable pub v1_fields : V1PayRequest → List (Bytes × Option Json)
v1_fields r =
    (codes "convert", encode_pointer text r.receiving_currency_code)
    ∷ (codes "amount", some (text r.amount))
    ∷ (codes "payerData", encode_pointer map_json r.payer_data)
    ∷ (codes "payeeData", encode_pointer options_json r.requested_payee_data)
    ∷ (codes "comment", encode_pointer text r.comment)
    ∷ (codes "invoiceUUID", encode_pointer text r.invoice_uuid)
    ∷ []

-- The amount of version 1: with a currency code behind a dot, when there is one.
unfoldable pub amount_text : ℤ → Option Bytes → Bytes
amount_text amount none = format_int amount
amount_text amount (some code) = format_int amount ++ b'.' ∷ code

unfoldable pub as_v0 : PayRequest → V0PayRequest
as_v0 p = record {
  receiving_currency_code = p.receiving_currency_code;
  amount = p.amount;
  payer_data = p.payer_data;
  requested_payee_data = p.requested_payee_data;
  comment = p.comment;
}

unfoldable pub as_v1 : PayRequest → V1PayRequest
as_v1 p = record {
  receiving_currency_code = p.receiving_currency_code;
  amount = amount_text p.amount p.sending_amount_currency_code;
  payer_data = p.payer_data;
  requested_payee_data = p.requested_payee_data;
  comment = p.comment;
  invoice_uuid = none;
}

-- (p *PayRequest) MarshalJSON(), and Encode.
unfoldable pub marshal_pay_request : PayRequest → Json
marshal_pay_request p =
    if eqb_ℤ p.uma_major_version (pos 0)
    then object (struct_of (v0_fields (as_v0 p)))
    else object (struct_of (v1_fields (as_v1 p)))

-- The parts of an amount text: the number, and the code that may follow it.
unfoldable pub amount_parts : List Bytes → Result (ℤ × Option Bytes)
amount_parts (digits ∷ []) = or_error (parse_int digits) bad_number >>= λ amount. ok (amount, none)
amount_parts (digits ∷ code ∷ []) =
    or_error (parse_int digits) bad_number >>= λ amount. ok (amount, some code)
amount_parts _ = err invalid_amount

-- A code of no characters leaves the field as it is.
unfoldable pub set_code : Option Bytes → Option Bytes → Option Bytes
set_code none old = old
set_code (some []) old = old
set_code (some (c ∷ s)) old = some (c ∷ s)

unfoldable pub unmarshal_from_v1 : PayRequest → V1PayRequest → Result PayRequest
unmarshal_from_v1 p request = do
  (amount, code) ← amount_parts (split b'.' request.amount)
  ok (record p {
    uma_major_version = pos 1;
    receiving_currency_code = request.receiving_currency_code;
    payer_data = request.payer_data;
    requested_payee_data = request.requested_payee_data;
    comment = request.comment;
    amount = amount;
    sending_amount_currency_code = set_code code p.sending_amount_currency_code;
  })

unfoldable pub unmarshal_from_v0 : PayRequest → V0PayRequest → Result PayRequest
unmarshal_from_v0 p request = ok (record p {
  uma_major_version = pos 0;
  receiving_currency_code = request.receiving_currency_code;
  payer_data = request.payer_data;
  requested_payee_data = request.requested_payee_data;
  comment = request.comment;
  amount = request.amount;
})

-- Whether the amount is a string; anything but a string and a number is an error.
amount_is_string : Option Json → Result Bool
amount_is_string (some (text s)) = ok true
amount_is_string (some (number s)) = ok false
amount_is_string _ = err missing_amount

is_text : Option Json → Bool
is_text (some (text s)) = true
is_text _ = false

is_object : Option Json → Bool
is_object (some (object ms)) = true
is_object _ = false

-- The payer data are a map with a map under "compliance".
has_compliance : Option Json → Bool
unfolding is_object
has_compliance (some (object ms)) = is_object (get_member (codes "compliance") ms)
has_compliance _ = false

module _ (lib : JsonLib) where
  unfoldable pub decode_v0 : Members → Result V0PayRequest
  decode_v0 ms = do
    currency ← decode_pointer decode_text (get_member (codes "currency") ms)
    amount ← decode_int (get_member (codes "amount") ms)
    payer_data ← decode_pointer (decode_map lib.float) (get_member (codes "payerData") ms)
    payee_data ← decode_pointer decode_options (get_member (codes "payeeData") ms)
    comment ← decode_pointer decode_text (get_member (codes "comment") ms)
    ok (record {
      receiving_currency_code = currency;
      amount = amount;
      payer_data = payer_data;
      requested_payee_data = payee_data;
      comment = comment;
    })

  unfoldable pub decode_v1 : Members → Result V1PayRequest
  decode_v1 ms = do
    currency ← decode_pointer decode_text (get_member (codes "convert") ms)
    amount ← decode_text (get_member (codes "amount") ms)
    payer_data ← decode_pointer (decode_map lib.float) (get_member (codes "payerData") ms)
    payee_data ← decode_pointer decode_options (get_member (codes "payeeData") ms)
    comment ← decode_pointer decode_text (get_member (codes "comment") ms)
    invoice_uuid ← decode_pointer decode_text (get_member (codes "invoiceUUID") ms)
    ok (record {
      receiving_currency_code = currency;
      amount = amount;
      payer_data = payer_data;
      requested_payee_data = payee_data;
      comment = comment;
      invoice_uuid = invoice_uuid;
    })

  -- (p *PayRequest) UnmarshalJSON(data): `raw` is the document as a map.
  unfoldable pub unmarshal_pay_request : PayRequest → Json → Result PayRequest
  unfolding amount_is_string has_compliance is_text
  unmarshal_pay_request p data_json = do
    ms ← decode_struct (some data_json)
    raw ← to_interface_members lib.float ms
    amount_string ← amount_is_string (get_member (codes "amount") raw)
    let is_v1 =
        is_text (get_member (codes "convert") raw)
        && has_compliance (get_member (codes "payerData") raw)
    (if is_v1 || amount_string
        then (decode_v1 ms >>= unmarshal_from_v1 p)
        else (decode_v0 ms >>= unmarshal_from_v0 p))

signed_text : Bytes → Option CompliancePayerData → Result Bytes
signed_text address none = err missing_compliance_data
signed_text address (some c) =
    ok (join b'|' (address ∷ c.signature_nonce ∷ format_int c.signature_timestamp ∷ []))

signed_parts : Option Bytes → Result (Option CompliancePayerData) → Result Bytes
unfolding signed_text
signed_parts (some (c ∷ address)) compliance = compliance >>= signed_text (c ∷ address)
signed_parts _ compliance = err missing_identifier

data_payload : Option PayerData → Result Bytes
unfolding signed_parts
data_payload none = err missing_payer_data
data_payload (some d) = signed_parts (payer_identifier (some d)) (payer_compliance (some d))

-- (p *PayRequest) SignablePayload()
unfoldable pub pay_request_payload : PayRequest → Result Bytes
unfolding data_payload
pay_request_payload p = data_payload p.payer_data
