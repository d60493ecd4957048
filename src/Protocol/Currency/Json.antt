-- ===== src/Protocol/Currency/Json.antt =====
-- The JSON forms of uma/protocol/currency.go, MarshalJSON and UnmarshalJSON.
pub mod RoundTrip
use uma_go_sdk.Base.{
  ℕ, Bool, true, false, Option, none, some, List, [], ◌∷◌, Bytes, codes, if◌then◌else◌,
}
use uma_go_sdk.Base.Int.{ℤ, pos, eqb_ℤ}
use uma_go_sdk.Go.Result.{Result, ok, ◌>>=◌}
use uma_go_sdk.Go.Json.{
  Json, Members, Float64, text, number, object, get_member, struct_of, to_interface_members,
}
use uma_go_sdk.Go.Json.Decode.{decode_text, decode_int, decode_float, decode_struct, encode_int}
use uma_go_sdk.Protocol.LnurlpRequest.{is_set}
use uma_go_sdk.Protocol.Currency.{Currency, ConvertibleCurrency}

unfoldable pub convertible_fields : ConvertibleCurrency → List (Bytes × Option Json)
convertible_fields c =
    (codes "min", some (encode_int c.min_sendable))
    ∷ (codes "max", some (encode_int c.max_sendable))
    ∷ []

-- The fields of v0Currency and v1Currency, the multiplier as it is written.
unfoldable pub v0_currency_fields : Currency → Bytes → List (Bytes × Option Json)
v0_currency_fields c multiplier =
    (codes "code", some (text c.code))
    ∷ (codes "name", some (text c.name))
    ∷ (codes "symbol", some (text c.symbol))
    ∷ (codes "multiplier", some (number multiplier))
    ∷ (codes "minSendable", some (encode_int c.convertible.min_sendable))
    ∷ (codes "maxSendable", some (encode_int c.convertible.max_sendable))
    ∷ (codes "decimals", some (encode_int c.decimals))
    ∷ []

unfoldable pub v1_currency_fields : Currency → Bytes → List (Bytes × Option Json)
v1_currency_fields c multiplier =
    (codes "code", some (text c.code))
    ∷ (codes "name", some (text c.name))
    ∷ (codes "symbol", some (text c.symbol))
    ∷ (codes "multiplier", some (number multiplier))
    ∷ (codes "convertible", some (object (struct_of (convertible_fields c.convertible))))
    ∷ (codes "decimals", some (encode_int c.decimals))
    ∷ []

unfoldable pub decode_convertible : Option Json → Result ConvertibleCurrency
decode_convertible v = do
  ms ← decode_struct v
  min_sendable ← decode_int (get_member (codes "min") ms)
  max_sendable ← decode_int (get_member (codes "max") ms)
  ok (record { min_sendable = min_sendable; max_sendable = max_sendable })

module _ (float : Float64) where
  -- (c *Currency) MarshalJSON()
  unfoldable pub marshal_currency : Currency → Result Json
  marshal_currency c = do
    multiplier ← float.print c.millisatoshi_per_unit
    ok (
        object (
          struct_of (
            if eqb_ℤ c.uma_major_version (pos 0)
            then v0_currency_fields c multiplier
            else v1_currency_fields c multiplier)))

  -- json.Unmarshal into v0Currency, and what is copied out of it.
  unfoldable pub decode_v0_currency : Members → Result Currency
  decode_v0_currency ms = do
    code ← decode_text (get_member (codes "code") ms)
    name ← decode_text (get_member (codes "name") ms)
    symbol ← decode_text (get_member (codes "symbol") ms)
    multiplier ← decode_float float (get_member (codes "multiplier") ms)
    min_sendable ← decode_int (get_member (codes "minSendable") ms)
    max_sendable ← decode_int (get_member (codes "maxSendable") ms)
    decimals ← decode_int (get_member (codes "decimals") ms)
    ok (record {
      code = code;
      name = name;
      symbol = symbol;
      millisatoshi_per_unit = multiplier;
      convertible = record { min_sendable = min_sendable; max_sendable = max_sendable };
      decimals = decimals;
      uma_major_version = pos 0;
    })

  -- json.Unmarshal into v1Currency, and what is copied out of it.
  unfoldable pub decode_v1_currency : Members → Result Currency
  decode_v1_currency ms = do
    code ← decode_text (get_member (codes "code") ms)
    name ← decode_text (get_member (codes "name") ms)
    symbol ← decode_text (get_member (codes "symbol") ms)
    multiplier ← decode_float float (get_member (codes "multiplier") ms)
    convertible ← decode_convertible (get_member (codes "convertible") ms)
    decimals ← decode_int (get_member (codes "decimals") ms)
    ok (record {
      code = code;
      name = name;
      symbol = symbol;
      millisatoshi_per_unit = multiplier;
      convertible = convertible;
      decimals = decimals;
      uma_major_version = pos 1;
    })

  -- (c *Currency) UnmarshalJSON: the version is 0 when there is a "minSendable".
  unfoldable pub unmarshal_currency : Json → Result Currency
  unmarshal_currency v = do
    ms ← decode_struct (some v)
    json_data ← to_interface_members float ms
    if is_set (get_member (codes "minSendable") json_data)
        then decode_v0_currency ms
        else decode_v1_currency ms
