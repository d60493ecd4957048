-- ===== src/Protocol/PayReqResponse.antt =====
-- uma/protocol/payreq_response.go: the data. A `float64` is kept as its 64 bits.
pub mod Json
pub mod RoundTrip
use uma_go_sdk.Base.{ℕ, Bool, false, ◌&&◌, Option, none, some, List, Bytes}
use uma_go_sdk.Base.Int.{ℤ}
use uma_go_sdk.Go.Result.{Result, ok}
use uma_go_sdk.Protocol.LnurlpRequest.{is_set}
use uma_go_sdk.Protocol.PayeeData.{PayeeData, CompliancePayeeData, payee_compliance}

-- An element of the path of a route.
pub record Hop : Type 0 where
  pub pubkey : Bytes
  pub fee : ℤ
  pub msatoshi : ℤ
  pub channel : Bytes

-- The slices may be nil.
pub record Route : Type 0 where
  pub pubkey : Bytes
  pub path : Option (List Hop)

pub record PayReqResponsePaymentInfo : Type 0 where
  pub amount : Option ℤ
  pub currency_code : Bytes
  pub multiplier : ℕ
  pub decimals : ℤ
  pub exchange_fees_millisatoshi : ℤ

pub record PayReqResponse : Type 0 where
  pub encoded_invoice : Bytes
  pub routes : Option (List Route)
  pub payment_info : Option PayReqResponsePaymentInfo
  pub payee_data : Option PayeeData
  pub disposable : Option Bool
  pub success_action : Option (List (Bytes × Bytes))
  pub uma_major_version : ℤ

has_value {ℓ} : {A : Type ℓ} → Result (Option A) → Bool
has_value (ok a) = is_set a
has_value _ = false

unfoldable pub is_uma_response : PayReqResponse → Bool
unfolding has_value
is_uma_response p =
    is_set p.payment_info && is_set p.payee_data && has_value (payee_compliance p.payee_data)
