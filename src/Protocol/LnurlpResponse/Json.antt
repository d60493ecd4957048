-- ===== src/Protocol/LnurlpResponse/Json.antt =====
-- The JSON form that encoding/json gives to uma/protocol/lnurl_response.go, and ParseLnurlpResponse of
-- uma/uma.go behind the parser.
pub mod RoundTrip
use uma_go_sdk.Base.{Bool, Option, none, some, List, [], ◌∷◌, Bytes, codes}
use uma_go_sdk.Go.Result.{Result, ok, ◌>>=◌}
use uma_go_sdk.Go.Json.{
  Json, Items, Members, JsonLib, Float64, null, boolean, text, array, object, no_items, item,
  get_member, struct_of,
}
use uma_go_sdk.Go.Json.Decode.{
  decode_text, decode_bool, decode_int, decode_struct, decode_pointer, encode_pointer, encode_int,
}
use uma_go_sdk.Go.Json.Slices.{decode_array}
use uma_go_sdk.Protocol.KycStatus.Json.{marshal_status, status_field}
use uma_go_sdk.Protocol.CounterParty.Json.{decode_options, options_json}
use uma_go_sdk.Protocol.Currency.{Currency}
use uma_go_sdk.Protocol.Currency.Json.{marshal_currency, unmarshal_currency}
use uma_go_sdk.Protocol.LnurlpResponse.{LnurlpResponse, LnurlComplianceResponse}

unfoldable pub compliance_fields : LnurlComplianceResponse → List (Bytes × Option Json)
compliance_fields c =
    (codes "kycStatus", some (marshal_status c.kyc_status))
    ∷ (codes "signature", some (text c.signature))
    ∷ (codes "signatureNonce", some (text c.nonce))
    ∷ (codes "signatureTimestamp", some (encode_int c.timestamp))
    ∷ (codes "isSubjectToTravelRule", some (boolean c.is_subject_to_travel_rule))
    ∷ (codes "receiverIdentifier", some (text c.receiver_identifier))
    ∷ []

unfoldable pub compliance_json : LnurlComplianceResponse → Json
compliance_json c = object (struct_of (compliance_fields c))

unfoldable pub decode_compliance : Option Json → Result LnurlComplianceResponse
decode_compliance v = do
  ms ← decode_struct v
  kyc_status ← status_field (get_member (codes "kycStatus") ms)
  signature ← decode_text (get_member (codes "signature") ms)
  nonce ← decode_text (get_member (codes "signatureNonce") ms)
  timestamp ← decode_int (get_member (codes "signatureTimestamp") ms)
  is_subject ← decode_bool (get_member (codes "isSubjectToTravelRule") ms)
  receiver ← decode_text (get_member (codes "receiverIdentifier") ms)
  ok (record {
    kyc_status = kyc_status;
    signature = signature;
    nonce = nonce;
    timestamp = timestamp;
    is_subject_to_travel_rule = is_subject;
    receiver_identifier = receiver;
  })

-- The fields of LnurlpResponse, the currencies as they are written.
unfoldable pub response_fields : LnurlpResponse → Option Json → List (Bytes × Option Json)
response_fields r currencies =
    (codes "tag", some (text r.tag))
    ∷ (codes "callback", some (text r.callback))
    ∷ (codes "minSendable", some (encode_int r.min_sendable))
    ∷ (codes "maxSendable", some (encode_int r.max_sendable))
    ∷ (codes "metadata", some (text r.encoded_metadata))
    ∷ (codes "currencies", currencies)
    ∷ (codes "payerData", encode_pointer options_json r.required_payer_data)
    ∷ (codes "compliance", encode_pointer compliance_json r.compliance)
    ∷ (codes "umaVersion", encode_pointer text r.uma_version)
    ∷ (codes "commentAllowed", encode_pointer encode_int r.comment_chars_allowed)
    ∷ (codes "nostrPubkey", encode_pointer text r.nostr_pubkey)
    ∷ (codes "allowsNostr", encode_pointer boolean r.allows_nostr)
    ∷ []

module _ (float : Float64) where
  unfoldable pub currency_items : List Currency → Result Items
  currency_items [] = ok no_items
  currency_items (c ∷ cs) =
      marshal_currency float c >>= λ v. currency_items cs >>= λ xs. ok (item v xs)

  unfoldable pub currencies_json : Option (List Currency) → Result (Option Json)
  currencies_json none = ok none
  currencies_json (some cs) = currency_items cs >>= λ xs. ok (some (array xs))

  -- An element of a list of currencies; null goes to UnmarshalJSON too.
  unfoldable pub decode_currency : Option Json → Result Currency
  decode_currency none = unmarshal_currency float null
  decode_currency (some v) = unmarshal_currency float v

  -- json.Marshal of a response.
  unfoldable pub marshal_lnurlp_response : LnurlpResponse → Result Json
  marshal_lnurlp_response r = currencies_json r.currencies >>= λ currencies.
      ok (object (struct_of (response_fields r currencies)))

  -- json.Unmarshal into a new response.
  unfoldable pub unmarshal_lnurlp_response : Json → Result LnurlpResponse
  unmarshal_lnurlp_response v = do
    ms ← decode_struct (some v)
    tag ← decode_text (get_member (codes "tag") ms)
    callback ← decode_text (get_member (codes "callback") ms)
    min_sendable ← decode_int (get_member (codes "minSendable") ms)
    max_sendable ← decode_int (get_member (codes "maxSendable") ms)
    metadata ← decode_text (get_member (codes "metadata") ms)
    currencies ← decode_pointer (decode_array decode_currency) (get_member (codes "currencies") ms)
    payer_data ← decode_pointer decode_options (get_member (codes "payerData") ms)
    compliance ← decode_pointer decode_compliance (get_member (codes "compliance") ms)
    uma_version ← decode_pointer decode_text (get_member (codes "umaVersion") ms)
    comment_chars ← decode_pointer decode_int (get_member (codes "commentAllowed") ms)
    nostr_pubkey ← decode_pointer decode_text (get_member (codes "nostrPubkey") ms)
    allows_nostr ← decode_pointer decode_bool (get_member (codes "allowsNostr") ms)
    ok (record {
      tag = tag;
      callback = callback;
      min_sendable = min_sendable;
      max_sendable = max_sendable;
      encoded_metadata = metadata;
      currencies = currencies;
      required_payer_data = payer_data;
      compliance = compliance;
      uma_version = uma_version;
      comment_chars_allowed = comment_chars;
      nostr_pubkey = nostr_pubkey;
      allows_nostr = allows_nostr;
    })

unfoldable pub parse_lnurlp_response : JsonLib → Bytes → Result LnurlpResponse
parse_lnurlp_response lib bytes = lib.read bytes >>= unmarshal_lnurlp_response lib.float
