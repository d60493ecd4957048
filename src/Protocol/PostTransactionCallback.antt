-- ===== src/Protocol/PostTransactionCallback.antt =====
-- uma/protocol/post_transaction_callback.go.
pub mod Json
use uma_go_sdk.Base.{Option, some, List, [], ◌∷◌, Bytes}
use uma_go_sdk.Base.Int.{ℤ}
use uma_go_sdk.Go.Result.{Result, ok, err, missing_callback_fields}
use uma_go_sdk.Go.Strings.{join}
use uma_go_sdk.Go.Strconv.{format_int}

pub record UtxoWithAmount : Type 0 where
  pub utxo : Bytes
  pub amount : ℤ

pub record PostTransactionCallback : Type 0 where
  pub utxos : List UtxoWithAmount
  pub vasp_domain : Option Bytes
  pub signature : Option Bytes
  pub nonce : Option Bytes
  pub timestamp : Option ℤ

unfoldable pub payload_of : Option Bytes → Option ℤ → Result Bytes
payload_of (some nonce) (some timestamp) = ok (join b'|' (nonce ∷ format_int timestamp ∷ []))
payload_of _ _ = err missing_callback_fields

unfoldable pub callback_payload : PostTransactionCallback → Result Bytes
unfolding payload_of
callback_payload c = payload_of c.nonce c.timestamp
