-- ===== src/Protocol/Currency/Json/RoundTrip.antt =====
-- The JSON forms of a currency and back (uma/protocol/currency.go).
use uma_go_sdk.Base.{Bool, true, false, ◌≡◌, some, Bytes, eqb, if◌then◌else◌}
use uma_go_sdk.Base.Int.{ℤ, pos, eqb_ℤ}
use uma_go_sdk.Go.Result.{ok, ◌>>=◌}
use uma_go_sdk.Go.Json.{Float64, object, struct_of}
use uma_go_sdk.Go.Json.Decode.{decode_text, decode_float, decode_struct}
use uma_go_sdk.Go.Json.Laws.{
  IsFloat64, IsKeptInt, get-struct_of, decode-int, FieldsAreStable, struct_of-HasStable,
  to_interface_members-id,
}
use uma_go_sdk.Protocol.Currency.{Currency}
use uma_go_sdk.Protocol.Currency.Json.{
  convertible_fields, v0_currency_fields, v1_currency_fields, marshal_currency, decode_v0_currency,
  decode_v1_currency, decode_convertible, unmarshal_currency,
}

pub record IsKept (c : Currency) : Type 0 where
  pub min : IsKeptInt c.convertible.min_sendable
  pub max : IsKeptInt c.convertible.max_sendable
  pub decimals : IsKeptInt c.decimals

-- The version as UnmarshalJSON finds it.
abbrev pub json_version : ℤ → ℤ
json_version v = if eqb_ℤ v (pos 0) then pos 0 else pos 1

module _ (float : Float64) (floats : IsFloat64 float) (c : Currency) (s : Bytes)
    (printed : float.print c.millisatoshi_per_unit ≡ ok s) (kept : IsKept c) where
  parsed : float.parse s ≡ ok c.millisatoshi_per_unit
  parsed = floats.parse-print c.millisatoshi_per_unit s printed

  multiplier_stable : (float.parse s >>= float.print) ≡ ok s
  multiplier_stable = rw parsed printed

  v0_stable : FieldsAreStable float (v0_currency_fields c s)
  unfolding v0_currency_fields
  v0_stable = (
    tt,
    (
      tt,
      (
        tt,
        (
          multiplier_stable,
          (
            floats.print_integer _ kept.min.1,
            (floats.print_integer _ kept.max.1, (floats.print_integer _ kept.decimals.1, tt)),
          ),
        ),
      ),
    ),
  )

  v1_stable : FieldsAreStable float (v1_currency_fields c s)
  unfolding v1_currency_fields convertible_fields struct_of
  v1_stable = (
    tt,
    (
      tt,
      (
        tt,
        (
          multiplier_stable,
          (
            (floats.print_integer _ kept.min.1, (floats.print_integer _ kept.max.1, tt)),
            (floats.print_integer _ kept.decimals.1, tt),
          ),
        ),
      ),
    ),
  )

  decode-convertible :
      decode_convertible (some (object (struct_of (convertible_fields c.convertible))))
      ≡ ok c.convertible
  unfolding decode_convertible convertible_fields decode_struct eqb
  decode-convertible = simp (
    get-struct_of,
    decode-int c.convertible.min_sendable kept.min.0,
    decode-int c.convertible.max_sendable kept.max.0,
  )

  unmarshal-v0_currency :
      unmarshal_currency float (object (struct_of (v0_currency_fields c s)))
      ≡ ok (record c { uma_major_version = pos 0 })
  unfolding unmarshal_currency decode_struct decode_v0_currency v0_currency_fields eqb decode_text
      decode_float
  unmarshal-v0_currency = simp (
    to_interface_members-id float (struct_of (v0_currency_fields c s))
        (struct_of-HasStable float (v0_currency_fields c s) v0_stable),
    get-struct_of,
    parsed,
    decode-int c.convertible.min_sendable kept.min.0,
    decode-int c.convertible.max_sendable kept.max.0,
    decode-int c.decimals kept.decimals.0,
  )

  unmarshal-v1_currency :
      unmarshal_currency float (object (struct_of (v1_currency_fields c s)))
      ≡ ok (record c { uma_major_version = pos 1 })
  unfolding unmarshal_currency decode_struct decode_v1_currency v1_currency_fields eqb decode_text
      decode_float
  unmarshal-v1_currency = simp (
    to_interface_members-id float (struct_of (v1_currency_fields c s))
        (struct_of-HasStable float (v1_currency_fields c s) v1_stable),
    get-struct_of,
    parsed,
    decode-convertible,
    decode-int c.decimals kept.decimals.0,
  )

  -- A currency whose multiplier can be written, and whose integers are int64 and held exactly by
  -- float64, is written and read back as it was, with version 0 for version 0 and 1 for any other.
  pub currency-unmarshal-marshal :
      (marshal_currency float c >>= unmarshal_currency float)
      ≡ ok (record c { uma_major_version = json_version c.uma_major_version })
  unfolding marshal_currency
  currency-unmarshal-marshal = rw printed (chosen (eqb_ℤ c.uma_major_version (pos 0)))
    where
      chosen :
          (b : Bool)
          → unmarshal_currency float
              (object (struct_of (if b then v0_currency_fields c s else v1_currency_fields c s)))
            ≡ ok (record c { uma_major_version = if b then pos 0 else pos 1 })
      chosen true = unmarshal-v0_currency
      chosen false = unmarshal-v1_currency
