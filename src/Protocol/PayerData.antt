-- ===== src/Protocol/PayerData.antt =====
-- uma/protocol/payer_data.go. The payer data are the members of a map; a nil map is an empty one.
pub mod RoundTrip
use uma_go_sdk.Base.{
  Bool, true, false, ◌||◌, ◌==◌, ℕ, Option, none, some, List, [], ◌∷◌, ◌++◌, Bytes, codes,
  if◌then◌else◌,
}
use uma_go_sdk.Base.Int.{ℤ}
use uma_go_sdk.Go.Result.{Result, ok, err, panic, ◌>>=◌, invalid_travel_rule_format}
use uma_go_sdk.Go.Strings.{split}
use uma_go_sdk.Go.Json.{
  Json, Members, JsonLib, null, boolean, number, text, array, object, string_pointer, get_member,
  struct_of, items_of, marshal_members, to_interface_members,
}
use uma_go_sdk.Go.Json.Decode.{
  decode_text, decode_texts, decode_int, decode_pointer, encode_pointer, encode_int, encode_texts,
}
use uma_go_sdk.Protocol.KycStatus.{KycStatus, unknown}
use uma_go_sdk.Protocol.KycStatus.Json.{marshal_status, status_field}

abbrev pub PayerData : Type 0
PayerData = Members

pub record TravelRuleFormat : Type 0 where
  pub format_type : Bytes
  pub version : Option Bytes

-- strings.Contains with one byte.
contains : ℕ → Bytes → Bool
contains c [] = false
contains c (d ∷ s) = (d == c) || contains c s

-- What TravelRuleFormat.MarshalJSON writes: with no version, the type without quotes.
unfoldable pub rule_text : Bytes → Option Bytes → Bytes
rule_text format_type none = format_type
rule_text format_type (some version) = b'"' ∷ format_type ++ b'@' ∷ version ++ b'"' ∷ []

format_of_parts : List Bytes → Result TravelRuleFormat
format_of_parts (format_type ∷ version ∷ []) =
    ok (record { format_type = format_type; version = some version })
format_of_parts _ = err invalid_travel_rule_format

unfoldable pub parse_rule : Bytes → Result TravelRuleFormat
unfolding contains format_of_parts
parse_rule s =
    if contains b'@' s
    then format_of_parts (split b'@' s)
    else ok (record { format_type = s; version = none })

-- UnmarshalJSON into a new format.
unfoldable pub unmarshal_rule : Option Json → Result TravelRuleFormat
unmarshal_rule v = decode_text v >>= parse_rule

pub record CompliancePayerData : Type 0 where
  pub utxos : Option (List Bytes)
  pub node_pub_key : Option Bytes
  pub kyc_status : KycStatus
  pub encrypted_travel_rule_info : Option Bytes
  pub travel_rule_format : Option TravelRuleFormat
  pub signature : Bytes
  pub signature_nonce : Bytes
  pub signature_timestamp : ℤ
  pub utxo_callback : Bytes

-- The fields in the order of the struct, with the travel rule format as a document.
unfoldable pub payer_fields : CompliancePayerData → Option Json → List (Bytes × Option Json)
payer_fields c rule =
    (codes "utxos", encode_pointer encode_texts c.utxos)
    ∷ (codes "nodePubKey", encode_pointer text c.node_pub_key)
    ∷ (codes "kycStatus", some (marshal_status c.kyc_status))
    ∷ (codes "encryptedTravelRuleInfo", encode_pointer text c.encrypted_travel_rule_info)
    ∷ (codes "travelRuleFormat", rule)
    ∷ (codes "signature", some (text c.signature))
    ∷ (codes "signatureNonce", some (text c.signature_nonce))
    ∷ (codes "signatureTimestamp", some (encode_int c.signature_timestamp))
    ∷ (codes "utxoCallback", some (text c.utxo_callback))
    ∷ []

-- json.Unmarshal into CompliancePayerData.
unfoldable pub unmarshal_payer : Members → Result CompliancePayerData
unfolding status_field
unmarshal_payer ms = do
  utxos ← decode_pointer decode_texts (get_member (codes "utxos") ms)
  node_pub_key ← decode_pointer decode_text (get_member (codes "nodePubKey") ms)
  kyc_status ← status_field (get_member (codes "kycStatus") ms)
  info ← decode_pointer decode_text (get_member (codes "encryptedTravelRuleInfo") ms)
  rule ← decode_pointer unmarshal_rule (get_member (codes "travelRuleFormat") ms)
  signature ← decode_text (get_member (codes "signature") ms)
  nonce ← decode_text (get_member (codes "signatureNonce") ms)
  timestamp ← decode_int (get_member (codes "signatureTimestamp") ms)
  utxo_callback ← decode_text (get_member (codes "utxoCallback") ms)
  ok (record {
    utxos = utxos;
    node_pub_key = node_pub_key;
    kyc_status = kyc_status;
    encrypted_travel_rule_info = info;
    travel_rule_format = rule;
    signature = signature;
    signature_nonce = nonce;
    signature_timestamp = timestamp;
    utxo_callback = utxo_callback;
  })

-- (p *PayerData) Compliance(): only a map under "compliance" counts.
unfoldable pub compliance_of : Option Json → Result (Option CompliancePayerData)
compliance_of (some (object ms)) = unmarshal_payer (marshal_members ms) >>= λ c. ok (some c)
compliance_of _ = ok none

unfoldable pub payer_compliance : Option PayerData → Result (Option CompliancePayerData)
unfolding compliance_of
payer_compliance none = ok none
payer_compliance (some p) = compliance_of (get_member (codes "compliance") p)

as_string : Option Json → Option Bytes
as_string (some (text s)) = some s
as_string _ = none

unfoldable pub string_field : Option PayerData → Bytes → Option Bytes
unfolding as_string
string_field none field = none
string_field (some p) field = as_string (get_member field p)

unfoldable pub payer_identifier : Option PayerData → Option Bytes
payer_identifier p = string_field p (codes "identifier")

unfoldable pub payer_name : Option PayerData → Option Bytes
payer_name p = string_field p (codes "name")

unfoldable pub payer_email : Option PayerData → Option Bytes
payer_email p = string_field p (codes "email")

module _ (lib : JsonLib) where
  -- TravelRuleFormat.MarshalJSON, whose text json.Marshal takes for a document.
  unfoldable pub marshal_rule : TravelRuleFormat → Result Json
  marshal_rule t = lib.read (rule_text t.format_type t.version)

  rule_field : Option TravelRuleFormat → Result (Option Json)
  rule_field none = ok none
  rule_field (some t) = marshal_rule t >>= λ v. ok (some v)

  -- (c *CompliancePayerData) AsMap()
  unfoldable pub payer_as_map : CompliancePayerData → Result Members
  unfolding rule_field
  payer_as_map c = do
    rule ← rule_field c.travel_rule_format
    to_interface_members lib.float (struct_of (payer_fields c rule))
