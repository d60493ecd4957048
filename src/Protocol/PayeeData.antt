-- ===== src/Protocol/PayeeData.antt =====
-- uma/protocol/payee_data.go. The payee data are the members of a map; a nil map is an empty one.
pub mod RoundTrip
use uma_go_sdk.Base.{Option, none, some, List, [], ◌∷◌, Bytes, codes}
use uma_go_sdk.Base.Int.{ℤ}
use uma_go_sdk.Go.Result.{
  Result, ok, err, ◌>>=◌, missing_compliance_data, missing_nonce_or_timestamp,
}
use uma_go_sdk.Go.Strings.{join}
use uma_go_sdk.Go.Strconv.{format_int}
use uma_go_sdk.Go.Json.{
  Json, Members, JsonLib, null, text, object, get_member, struct_of, marshal_members,
  to_interface_members,
}
use uma_go_sdk.Go.Json.Decode.{
  decode_text, decode_texts, decode_int, decode_pointer, encode_pointer, encode_int, encode_texts,
}

abbrev pub PayeeData : Type 0
PayeeData = Members

-- `utxos` is a slice, which may be nil.
pub record CompliancePayeeData : Type 0 where
  pub node_pub_key : Option Bytes
  pub utxos : Option (List Bytes)
  pub utxo_callback : Option Bytes
  pub signature : Option Bytes
  pub signature_nonce : Option Bytes
  pub signature_timestamp : Option ℤ

-- A slice without `omitempty`: nil is null.
unfoldable pub slice_json : Option (List Bytes) → Json
slice_json none = null
slice_json (some ss) = encode_texts ss

unfoldable pub payee_fields : CompliancePayeeData → List (Bytes × Option Json)
payee_fields c =
    (codes "nodePubKey", encode_pointer text c.node_pub_key)
    ∷ (codes "utxos", some (slice_json c.utxos))
    ∷ (codes "utxoCallback", encode_pointer text c.utxo_callback)
    ∷ (codes "signature", encode_pointer text c.signature)
    ∷ (codes "signatureNonce", encode_pointer text c.signature_nonce)
    ∷ (codes "signatureTimestamp", encode_pointer encode_int c.signature_timestamp)
    ∷ []

-- json.Unmarshal into CompliancePayeeData.
unfoldable pub unmarshal_payee : Members → Result CompliancePayeeData
unmarshal_payee ms = do
  node_pub_key ← decode_pointer decode_text (get_member (codes "nodePubKey") ms)
  utxos ← decode_pointer decode_texts (get_member (codes "utxos") ms)
  utxo_callback ← decode_pointer decode_text (get_member (codes "utxoCallback") ms)
  signature ← decode_pointer decode_text (get_member (codes "signature") ms)
  nonce ← decode_pointer decode_text (get_member (codes "signatureNonce") ms)
  timestamp ← decode_pointer decode_int (get_member (codes "signatureTimestamp") ms)
  ok (record {
    node_pub_key = node_pub_key;
    utxos = utxos;
    utxo_callback = utxo_callback;
    signature = signature;
    signature_nonce = nonce;
    signature_timestamp = timestamp;
  })

unfoldable pub payee_compliance_of : Option Json → Result (Option CompliancePayeeData)
payee_compliance_of (some (object ms)) = unmarshal_payee (marshal_members ms) >>= λ c. ok (some c)
payee_compliance_of _ = ok none

-- (p *PayeeData) Compliance(): only a map under "compliance" counts.
unfoldable pub payee_compliance : Option PayeeData → Result (Option CompliancePayeeData)
payee_compliance none = ok none
payee_compliance (some p) = payee_compliance_of (get_member (codes "compliance") p)

-- (c *CompliancePayeeData) AsMap()
unfoldable pub payee_as_map : JsonLib → CompliancePayeeData → Result Members
payee_as_map lib c = to_interface_members lib.float (struct_of (payee_fields c))

join_payload : Bytes → Bytes → Option Bytes → Option ℤ → Result Bytes
join_payload payer payee (some nonce) (some timestamp) =
    ok (join b'|' (payer ∷ payee ∷ nonce ∷ format_int timestamp ∷ []))
join_payload payer payee _ _ = err missing_nonce_or_timestamp

-- (c *CompliancePayeeData) SignablePayload(payerIdentifier, payeeIdentifier), also on nil.
unfoldable pub payee_payload : Option CompliancePayeeData → Bytes → Bytes → Result Bytes
unfolding join_payload
payee_payload none payer payee = err missing_compliance_data
payee_payload (some c) payer payee =
    join_payload payer payee c.signature_nonce c.signature_timestamp
