-- ===== src/Protocol/LnurlpResponse/Json/RoundTrip.antt =====
-- The JSON form of an lnurlp response and back (uma/protocol/lnurl_response.go).
use uma_go_sdk.Base.{◌≡◌, refl, Option, none, some, List, [], ◌∷◌, Bytes, eqb, map, All}
use uma_go_sdk.Base.Int.{IsInt64}
use uma_go_sdk.Go.Result.{ok, ◌>>=◌, >>=-ok}
use uma_go_sdk.Go.Json.{Json, Items, Float64, no_items, item, array}
use uma_go_sdk.Go.Json.Decode.{
  decode_text, decode_bool, decode_struct, decode_pointer, encode_pointer,
}
use uma_go_sdk.Go.Json.Slices.{decode_list, decode_array, decode-bool_pointer}
use uma_go_sdk.Go.Json.Laws.{
  IsFloat64, get-struct_of, or_else-none, decode-text_pointer, decode-int, decode-int_pointer,
  IsOptionalInt64,
}
use uma_go_sdk.Protocol.KycStatus.{known}
use uma_go_sdk.Protocol.KycStatus.Json.{status_field, status-unmarshal-marshal}
use uma_go_sdk.Protocol.CounterParty.Json.{decode-options_pointer}
use uma_go_sdk.Protocol.Currency.{Currency}
use uma_go_sdk.Protocol.Currency.Json.{marshal_currency, unmarshal_currency}
use uma_go_sdk.Protocol.Currency.Json.RoundTrip.{IsKept, json_version, currency-unmarshal-marshal}
use uma_go_sdk.Protocol.LnurlpResponse.{LnurlpResponse, LnurlComplianceResponse}
use uma_go_sdk.Protocol.LnurlpResponse.Json.{
  compliance_fields, compliance_json, decode_compliance, response_fields, currency_items,
  currencies_json, decode_currency, marshal_lnurlp_response, unmarshal_lnurlp_response,
}

-- A currency that is written and read back, and what it is then.
abbrev pub CurrencyIsKept : Float64 → Currency → Type 0
CurrencyIsKept float c = (s : Bytes) × (float.print c.millisatoshi_per_unit ≡ ok s) × IsKept c

abbrev pub as_read : Currency → Currency
as_read c = record c { uma_major_version = json_version c.uma_major_version }

abbrev pub CurrenciesAreKept : Float64 → Option (List Currency) → Type 0
CurrenciesAreKept float none = Unit
CurrenciesAreKept float (some cs) = All (CurrencyIsKept float) cs

abbrev pub currencies_as_read : Option (List Currency) → Option (List Currency)
currencies_as_read none = none
currencies_as_read (some cs) = some (map as_read cs)

abbrev pub ComplianceIsKept : Option LnurlComplianceResponse → Type 0
ComplianceIsKept none = Unit
ComplianceIsKept (some c) = (known c.kyc_status ≡ c.kyc_status) × IsInt64 c.timestamp

decode-compliance :
    (c : LnurlComplianceResponse)
    → known c.kyc_status ≡ c.kyc_status
    → IsInt64 c.timestamp
    → decode_compliance (some (compliance_json c)) ≡ ok c
unfolding decode_compliance compliance_json compliance_fields decode_struct decode_text decode_bool
    eqb status_field
decode-compliance c status timestamp =
    simp (
      get-struct_of,
      decode-int c.timestamp timestamp,
      status-unmarshal-marshal c.kyc_status,
      status,
    )

decode-compliance_pointer :
    (p : Option LnurlComplianceResponse)
    → ComplianceIsKept p
    → decode_pointer decode_compliance (encode_pointer compliance_json p) ≡ ok p
unfolding decode_pointer encode_pointer compliance_json
decode-compliance_pointer none h = refl
decode-compliance_pointer (some c) h =
    unfold compliance_json in rw (decode-compliance c h.0 h.1) refl

module _ (float : Float64) (floats : IsFloat64 float) where
  currency_written :
      (c : Currency)
      → CurrencyIsKept float c
      → (v : Json) × (marshal_currency float c ≡ ok v)
        × (unmarshal_currency float v ≡ ok (as_read c))
  currency_written c (s, printed, kept) =
      >>=-ok (marshal_currency float c) (unmarshal_currency float)
        (currency-unmarshal-marshal float floats c s printed kept)

  items_written :
      (cs : List Currency)
      → All (CurrencyIsKept float) cs
      → (xs : Items) × (currency_items float cs ≡ ok xs)
        × (decode_list (decode_currency float) xs ≡ ok (map as_read cs))
  unfolding currency_items decode_list decode_currency
  items_written [] h = (no_items, refl, refl)
  items_written (c ∷ cs) h =
      let (v, written, read) = currency_written c h.0 in
      let (xs, written', read') = items_written cs h.1 in
      (item v xs, rw written (rw written' refl), rw read (rw read' refl))

  -- The currencies are written and read back.
  currencies_written :
      (p : Option (List Currency))
      → CurrenciesAreKept float p
      → (v : Option Json) × (currencies_json float p ≡ ok v)
        × (decode_pointer (decode_array (decode_currency float)) v ≡ ok (currencies_as_read p))
  unfolding currencies_json decode_pointer decode_array
  currencies_written none h = (none, refl, refl)
  currencies_written (some cs) h =
      let (xs, written, read) = items_written cs h in
      (some (array xs), rw written refl, rw read refl)

  -- An lnurlp response is read back from its JSON form as it was, but for the versions of its
  -- currencies, if its integers are int64, its status is one of the constants, and its currencies
  -- have multipliers that can be written and integers that float64 keeps.
  pub lnurlp_response-unmarshal-marshal :
      (r : LnurlpResponse)
      → IsInt64 r.min_sendable
      → IsInt64 r.max_sendable
      → IsOptionalInt64 r.comment_chars_allowed
      → CurrenciesAreKept float r.currencies
      → ComplianceIsKept r.compliance
      → (marshal_lnurlp_response float r >>= unmarshal_lnurlp_response float)
        ≡ ok (record r { currencies = currencies_as_read r.currencies })
  unfolding marshal_lnurlp_response unmarshal_lnurlp_response response_fields decode_struct
      decode_text eqb
  lnurlp_response-unmarshal-marshal r min max chars currencies compliance =
      let (v, written, read) = currencies_written r.currencies currencies in
      rw written (
        simp (
          get-struct_of,
          or_else-none,
          decode-int r.min_sendable min,
          decode-int r.max_sendable max,
          read,
          decode-options_pointer r.required_payer_data,
          decode-compliance_pointer r.compliance compliance,
          decode-text_pointer r.uma_version,
          decode-int_pointer r.comment_chars_allowed chars,
          decode-text_pointer r.nostr_pubkey,
          decode-bool_pointer r.allows_nostr,
        ))
