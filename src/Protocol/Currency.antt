-- ===== src/Protocol/Currency.antt =====
-- uma/protocol/currency.go: the data. A `float64` is kept as its 64 bits.
pub mod Json
use uma_go_sdk.Base.{ℕ, Bytes}
use uma_go_sdk.Base.Int.{ℤ}

pub record ConvertibleCurrency : Type 0 where
  pub min_sendable : ℤ
  pub max_sendable : ℤ

pub record Currency : Type 0 where
  pub code : Bytes
  pub name : Bytes
  pub symbol : Bytes
  pub millisatoshi_per_unit : ℕ
  pub convertible : ConvertibleCurrency
  pub decimals : ℤ
  pub uma_major_version : ℤ
