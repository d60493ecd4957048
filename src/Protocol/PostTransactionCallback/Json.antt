-- ===== src/Protocol/PostTransactionCallback/Json.antt =====
-- The JSON form that encoding/json gives to uma/protocol/post_transaction_callback.go and back, and
-- ParsePostTransactionCallback of uma/uma.go. A nil slice of UTXOs is taken for an empty one.
use uma_go_sdk.Base.{◌≡◌, Option, some, List, [], ◌∷◌, Bytes, codes, eqb, All}
use uma_go_sdk.Base.Int.{IsInt64}
use uma_go_sdk.Go.Result.{Result, ok, ◌>>=◌}
use uma_go_sdk.Go.Json.{Json, JsonLib, text, array, object, get_member, struct_of}
use uma_go_sdk.Go.Json.Decode.{
  decode_text, decode_int, decode_struct, decode_pointer, encode_pointer, encode_int,
}
use uma_go_sdk.Go.Json.Slices.{list_items, decode_array, decode-list_items}
use uma_go_sdk.Go.Json.Laws.{
  get-struct_of, or_else-none, decode-text_pointer, decode-int, decode-int_pointer, IsOptionalInt64,
}
use uma_go_sdk.Protocol.PostTransactionCallback.{PostTransactionCallback, UtxoWithAmount}

unfoldable pub utxo_fields : UtxoWithAmount → List (Bytes × Option Json)
utxo_fields u =
    (codes "utxo", some (text u.utxo)) ∷ (codes "amountMsats", some (encode_int u.amount)) ∷ []

abbrev pub utxo_json : UtxoWithAmount → Json
utxo_json u = object (struct_of (utxo_fields u))

unfoldable pub decode_utxo : Option Json → Result UtxoWithAmount
decode_utxo v = do
  ms ← decode_struct v
  utxo ← decode_text (get_member (codes "utxo") ms)
  amount ← decode_int (get_member (codes "amountMsats") ms)
  ok (record { utxo = utxo; amount = amount })

unfoldable pub callback_fields : PostTransactionCallback → List (Bytes × Option Json)
callback_fields c =
    (codes "utxos", some (array (list_items utxo_json c.utxos)))
    ∷ (codes "vaspDomain", encode_pointer text c.vasp_domain)
    ∷ (codes "signature", encode_pointer text c.signature)
    ∷ (codes "signatureNonce", encode_pointer text c.nonce)
    ∷ (codes "signatureTimestamp", encode_pointer encode_int c.timestamp)
    ∷ []

unfoldable pub marshal_callback : PostTransactionCallback → Json
marshal_callback c = object (struct_of (callback_fields c))

unfoldable pub unmarshal_callback : Json → Result PostTransactionCallback
unmarshal_callback v = do
  ms ← decode_struct (some v)
  utxos ← decode_array decode_utxo (get_member (codes "utxos") ms)
  vasp_domain ← decode_pointer decode_text (get_member (codes "vaspDomain") ms)
  signature ← decode_pointer decode_text (get_member (codes "signature") ms)
  nonce ← decode_pointer decode_text (get_member (codes "signatureNonce") ms)
  timestamp ← decode_pointer decode_int (get_member (codes "signatureTimestamp") ms)
  ok (record {
    utxos = utxos;
    vasp_domain = vasp_domain;
    signature = signature;
    nonce = nonce;
    timestamp = timestamp;
  })

unfoldable pub parse_post_transaction_callback : JsonLib → Bytes → Result PostTransactionCallback
parse_post_transaction_callback lib bytes = lib.read bytes >>= unmarshal_callback

abbrev pub UtxoIsKept : UtxoWithAmount → Type 0
UtxoIsKept u = IsInt64 u.amount

utxo_read : (u : UtxoWithAmount) → UtxoIsKept u → decode_utxo (some (utxo_json u)) ≡ ok u
unfolding decode_utxo utxo_fields decode_struct decode_text eqb
utxo_read u h = simp (get-struct_of, decode-int u.amount h)

-- A callback is read back from its JSON form as it was, if its amounts and its timestamp are int64.
pub callback-unmarshal-marshal :
    (c : PostTransactionCallback)
    → All UtxoIsKept c.utxos
    → IsOptionalInt64 c.timestamp
    → unmarshal_callback (marshal_callback c) ≡ ok c
unfolding unmarshal_callback marshal_callback callback_fields decode_struct decode_array eqb
callback-unmarshal-marshal c amounts timestamp = simp (
  get-struct_of,
  or_else-none,
  decode-list_items UtxoIsKept utxo_json decode_utxo utxo_read c.utxos amounts,
  decode-text_pointer c.vasp_domain,
  decode-text_pointer c.signature,
  decode-text_pointer c.nonce,
  decode-int_pointer c.timestamp timestamp,
)
