-- ===== src/Protocol/PayReqResponse/Json.antt =====
-- The JSON forms of uma/protocol/payreq_response.go: asV0, asV1, MarshalJSON and UnmarshalJSON. The
-- structs of the two versions hold the same fields as the response, so they are not copied.
use uma_go_sdk.Base.{Option, none, some, List, [], ◌∷◌, Bytes, codes, if◌then◌else◌}
use uma_go_sdk.Base.Int.{ℤ, pos, eqb_ℤ}
use uma_go_sdk.Go.Result.{Result, ok, ◌>>=◌}
use uma_go_sdk.Go.Json.{
  Json, Members, JsonLib, Float64, null, boolean, number, text, object, get_member, set_member,
  struct_of, to_interface_members, no_members,
}
use uma_go_sdk.Go.Json.Decode.{
  decode_text, decode_bool, decode_int, decode_float, decode_struct, decode_map, decode_pointer,
  encode_pointer, encode_int,
}
use uma_go_sdk.Go.Json.Slices.{encode_slice, decode_slice, text_map_json, decode_text_map}
use uma_go_sdk.Protocol.LnurlpRequest.{is_set}
use uma_go_sdk.Protocol.PayeeData.{
  PayeeData, CompliancePayeeData, payee_fields, unmarshal_payee, payee_compliance, payee_as_map,
}
use uma_go_sdk.Protocol.PayRequest.{map_json}
use uma_go_sdk.Protocol.PayReqResponse.{Hop, Route, PayReqResponsePaymentInfo, PayReqResponse}

unfoldable pub hop_fields : Hop → List (Bytes × Option Json)
hop_fields h =
    (codes "pubkey", some (text h.pubkey))
    ∷ (codes "fee", some (encode_int h.fee))
    ∷ (codes "msatoshi", some (encode_int h.msatoshi))
    ∷ (codes "channel", some (text h.channel))
    ∷ []

abbrev pub hop_json : Hop → Json
hop_json h = object (struct_of (hop_fields h))

unfoldable pub route_fields : Route → List (Bytes × Option Json)
route_fields r =
    (codes "pubkey", some (text r.pubkey))
    ∷ (codes "path", some (encode_slice hop_json r.path))
    ∷ []

abbrev pub route_json : Route → Json
route_json r = object (struct_of (route_fields r))

unfoldable pub decode_hop : Option Json → Result Hop
decode_hop v = do
  ms ← decode_struct v
  pubkey ← decode_text (get_member (codes "pubkey") ms)
  fee ← decode_int (get_member (codes "fee") ms)
  msatoshi ← decode_int (get_member (codes "msatoshi") ms)
  channel ← decode_text (get_member (codes "channel") ms)
  ok (record { pubkey = pubkey; fee = fee; msatoshi = msatoshi; channel = channel })

unfoldable pub decode_route : Option Json → Result Route
decode_route v = do
  ms ← decode_struct v
  pubkey ← decode_text (get_member (codes "pubkey") ms)
  path ← decode_slice decode_hop (get_member (codes "path") ms)
  ok (record { pubkey = pubkey; path = path })

-- The payment information of the two versions, the multiplier as it is written.
unfoldable pub v1_payment_fields : PayReqResponsePaymentInfo → Bytes → List (Bytes × Option Json)
v1_payment_fields p multiplier =
    (codes "amount", encode_pointer encode_int p.amount)
    ∷ (codes "currencyCode", some (text p.currency_code))
    ∷ (codes "multiplier", some (number multiplier))
    ∷ (codes "decimals", some (encode_int p.decimals))
    ∷ (codes "fee", some (encode_int p.exchange_fees_millisatoshi))
    ∷ []

unfoldable pub v0_payment_fields : PayReqResponsePaymentInfo → Bytes → List (Bytes × Option Json)
v0_payment_fields p multiplier =
    (codes "currencyCode", some (text p.currency_code))
    ∷ (codes "multiplier", some (number multiplier))
    ∷ (codes "decimals", some (encode_int p.decimals))
    ∷ (codes "exchangeFeesMillisatoshi", some (encode_int p.exchange_fees_millisatoshi))
    ∷ []

-- A pointer to payment information is written when the multiplier can be.
unfoldable pub payment_json :
    Float64
    → (PayReqResponsePaymentInfo → Bytes → List (Bytes × Option Json))
    → Option PayReqResponsePaymentInfo
    → Result (Option Json)
payment_json float fields none = ok none
payment_json float fields (some p) =
    float.print p.multiplier >>= λ s. ok (some (object (struct_of (fields p s))))

-- The fields of v1PayReqResponse, and the fields that the two versions share.
unfoldable pub v1_response_fields : PayReqResponse → Option Json → List (Bytes × Option Json)
v1_response_fields p payment =
    (codes "pr", some (text p.encoded_invoice))
    ∷ (codes "routes", some (encode_slice route_json p.routes))
    ∷ (codes "converted", payment)
    ∷ (codes "payeeData", encode_pointer map_json p.payee_data)
    ∷ (codes "disposable", encode_pointer boolean p.disposable)
    ∷ (codes "successAction", encode_pointer text_map_json p.success_action)
    ∷ []

unfoldable pub payee_json : CompliancePayeeData → Json
payee_json c = object (struct_of (payee_fields c))

unfoldable pub v0_response_fields :
    PayReqResponse → Option Json → Option CompliancePayeeData → List (Bytes × Option Json)
v0_response_fields p payment compliance =
    (codes "pr", some (text p.encoded_invoice))
    ∷ (codes "routes", some (encode_slice route_json p.routes))
    ∷ (codes "paymentInfo", payment)
    ∷ (codes "payeeData", encode_pointer map_json p.payee_data)
    ∷ (codes "disposable", encode_pointer boolean p.disposable)
    ∷ (codes "successAction", encode_pointer text_map_json p.success_action)
    ∷ (codes "compliance", encode_pointer payee_json compliance)
    ∷ []

-- (p *PayReqResponse) MarshalJSON(): a version that is neither 0 nor 1 is written as null.
unfoldable pub marshal_payreq_response : Float64 → PayReqResponse → Result Json
marshal_payreq_response float p =
    if eqb_ℤ p.uma_major_version (pos 0)
    then (do
      compliance ← payee_compliance p.payee_data
      payment ← payment_json float v0_payment_fields p.payment_info
      ok (object (struct_of (v0_response_fields p payment compliance))))
    else if eqb_ℤ p.uma_major_version (pos 1)
    then (do
      payment ← payment_json float v1_payment_fields p.payment_info
      ok (object (struct_of (v1_response_fields p payment))))
    else ok null

module _ (lib : JsonLib) where
  unfoldable pub decode_v1_payment : Option Json → Result PayReqResponsePaymentInfo
  decode_v1_payment v = do
    ms ← decode_struct v
    amount ← decode_pointer decode_int (get_member (codes "amount") ms)
    code ← decode_text (get_member (codes "currencyCode") ms)
    multiplier ← decode_float lib.float (get_member (codes "multiplier") ms)
    decimals ← decode_int (get_member (codes "decimals") ms)
    fees ← decode_int (get_member (codes "fee") ms)
    ok (record {
      amount = amount;
      currency_code = code;
      multiplier = multiplier;
      decimals = decimals;
      exchange_fees_millisatoshi = fees;
    })

  -- Payment information of version 0 has no amount.
  unfoldable pub decode_v0_payment : Option Json → Result PayReqResponsePaymentInfo
  decode_v0_payment v = do
    ms ← decode_struct v
    code ← decode_text (get_member (codes "currencyCode") ms)
    multiplier ← decode_float lib.float (get_member (codes "multiplier") ms)
    decimals ← decode_int (get_member (codes "decimals") ms)
    fees ← decode_int (get_member (codes "exchangeFeesMillisatoshi") ms)
    ok (record {
      amount = none;
      currency_code = code;
      multiplier = multiplier;
      decimals = decimals;
      exchange_fees_millisatoshi = fees;
    })

  -- json.Unmarshal into the struct of a version, and what is copied out of it.
  unfoldable pub decode_response :
      ℤ → Bytes → (Option Json → Result PayReqResponsePaymentInfo) → Members → Result PayReqResponse
  decode_response version payment_key decode_payment ms = do
    encoded_invoice ← decode_text (get_member (codes "pr") ms)
    routes ← decode_slice decode_route (get_member (codes "routes") ms)
    payment_info ← decode_pointer decode_payment (get_member payment_key ms)
    payee_data ← decode_pointer (decode_map lib.float) (get_member (codes "payeeData") ms)
    disposable ← decode_pointer decode_bool (get_member (codes "disposable") ms)
    success_action ← decode_pointer decode_text_map (get_member (codes "successAction") ms)
    ok (record {
      encoded_invoice = encoded_invoice;
      routes = routes;
      payment_info = payment_info;
      payee_data = payee_data;
      disposable = disposable;
      success_action = success_action;
      uma_major_version = version;
    })

  -- Version 0 has the compliance data at the top level: they are put into the payee data.
  unfoldable pub with_compliance :
      Option CompliancePayeeData → Option PayeeData → Result (Option PayeeData)
  with_compliance none payee_data = ok payee_data
  with_compliance (some c) none =
      payee_as_map lib c >>= λ m. ok (some (set_member (codes "compliance") (object m) no_members))
  with_compliance (some c) (some d) =
      payee_as_map lib c >>= λ m. ok (some (set_member (codes "compliance") (object m) d))

  unfoldable pub decode_v0_response : Members → Result PayReqResponse
  decode_v0_response ms = do
    v0 ← decode_response (pos 0) (codes "paymentInfo") decode_v0_payment ms
    compliance ←
        decode_pointer (λ v. decode_struct v >>= unmarshal_payee)
          (get_member (codes "compliance") ms)
    payee_data ← with_compliance compliance v0.payee_data
    ok (record v0 { payee_data = payee_data })

  -- (p *PayReqResponse) UnmarshalJSON, and ParsePayReqResponse behind the parser: the version is 0
  -- when there is a "paymentInfo".
  unfoldable pub unmarshal_payreq_response : Json → Result PayReqResponse
  unmarshal_payreq_response v = do
    ms ← decode_struct (some v)
    data_as_map ← to_interface_members lib.float ms
    if is_set (get_member (codes "paymentInfo") data_as_map)
        then decode_v0_response ms
        else decode_response (pos 1) (codes "converted") decode_v1_payment ms

  unfoldable pub parse_pay_req_response : Bytes → Result PayReqResponse
  parse_pay_req_response bytes = lib.read bytes >>= unmarshal_payreq_response
