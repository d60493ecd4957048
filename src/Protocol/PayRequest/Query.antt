-- ===== src/Protocol/PayRequest/Query.antt =====
-- The query form of a pay request (EncodeAsUrlParams and ParsePayRequestFromQueryParams of
-- uma/protocol/pay_request.go). `url.Values` holds a key once here.
pub mod Params
pub mod RoundTrip
pub mod VersionZero
use uma_go_sdk.Base.{Option, none, some, [], ◌∷◌, Bytes, codes}
use uma_go_sdk.Base.Int.{ℤ, pos}
use uma_go_sdk.Go.Result.{Result, ok, err, ◌>>=◌, missing_amount}
use uma_go_sdk.Go.Strings.{split}
use uma_go_sdk.Go.Map.{Map}
use uma_go_sdk.Go.Url.{get}
use uma_go_sdk.Go.Json.{
  Json, Members, JsonLib, text, no_members, member, marshal, to_interface_members,
}
use uma_go_sdk.Go.Json.Decode.{decode_struct, decode_pointer, decode_map}
use uma_go_sdk.Protocol.CounterParty.Json.{decode_options}
use uma_go_sdk.Protocol.PayRequest.{PayRequest, marshal_pay_request, amount_parts}

unfoldable pub text_param : Bytes → Option Bytes
text_param [] = none
text_param (c ∷ s) = some (c ∷ s)

-- The receiving currency and the version: that of `convert`, or else that of `currency`.
unfoldable pub currency_param : Bytes → Bytes → Option Bytes × ℤ
currency_param (c ∷ s) currency = (some (c ∷ s), pos 1)
currency_param [] (c ∷ s) = (some (c ∷ s), pos 0)
currency_param [] [] = (none, pos 1)

unfoldable pub amount_param : Bytes → Result (ℤ × Option Bytes)
amount_param [] = err missing_amount
amount_param (c ∷ s) = amount_parts (split b'.' (c ∷ s))

module _ (lib : JsonLib) where
  -- The text of a value: a string as it is, anything else as JSON.
  unfoldable pub param_text : Json → Result Bytes
  param_text (text s) = ok s
  param_text v = lib.write (marshal v)

  unfoldable pub add_params : Members → Result (Map Bytes)
  unfolding param_text
  add_params no_members = ok []
  add_params (member k v ms) =
      param_text v >>= λ s. add_params ms >>= λ params. ok ((k, s) ∷ params)

  unfoldable pub encode_as_url_params : PayRequest → Result (Map Bytes)
  unfolding add_params
  encode_as_url_params p = do
    ms ← decode_struct (some (marshal_pay_request p))
    raw ← to_interface_members lib.float ms
    add_params raw

  -- A parameter that holds JSON; the empty string stands for none.
  unfoldable pub json_param {ℓ} :
      {A : Type ℓ} → (Option Json → Result A) → Bytes → Result (Option A)
  json_param decode [] = ok none
  json_param decode (c ∷ s) = lib.read (c ∷ s) >>= λ v. decode_pointer decode (some v)

  unfoldable pub parse_pay_request_from_query_params : Map Bytes → Result PayRequest
  unfolding json_param text_param currency_param amount_param
  parse_pay_request_from_query_params query = do
    (amount, code) ← amount_param (get query (codes "amount"))
    payer_data ← json_param (decode_map lib.float) (get query (codes "payerData"))
    payee_data ← json_param decode_options (get query (codes "payeeData"))
    let (currency, version) =
        currency_param (get query (codes "convert")) (get query (codes "currency"))
    ok (record {
      sending_amount_currency_code = code;
      receiving_currency_code = currency;
      amount = amount;
      payer_data = payer_data;
      requested_payee_data = payee_data;
      comment = text_param (get query (codes "comment"));
      invoice_uuid = none;
      uma_major_version = version;
    })
