-- ===== src/Protocol/PayRequest/Query/Params.antt =====
-- The parameters that a struct becomes, and what each is read back as (uma/protocol/pay_request.go).
use uma_go_sdk.Base.{
  ◌≡◌, ◌≢◌, refl, arith, Option, none, some, List, [], ◌∷◌, Bytes, eqb, if◌then◌else◌,
}
use uma_go_sdk.Base.Int.{ℤ, pos}
use uma_go_sdk.Go.Result.{Result, ok}
use uma_go_sdk.Go.Strings.{split}
use uma_go_sdk.Go.Strconv.{format_int, parse_int}
use uma_go_sdk.Go.Map.{Map, lookup}
use uma_go_sdk.Go.Url.{or_empty, get}
use uma_go_sdk.Go.Json.{Json, Members, JsonLib, text, struct_of}
use uma_go_sdk.Go.Json.Decode.{decode_pointer, encode_pointer, encode_int}
use uma_go_sdk.Go.Json.Laws.{IsFloat64, IsExactInt, or_else, marshal-id}
use uma_go_sdk.Protocol.CounterParty.{CounterPartyDataOptions}
use uma_go_sdk.Protocol.CounterParty.Json.{options_json, options_pointer-stable}
use uma_go_sdk.Protocol.PayRequest.{map_json, amount_parts}
use uma_go_sdk.Protocol.PayRequest.RoundTrip.{DataIsKept}
use uma_go_sdk.Protocol.PayRequest.Query.{
  param_text, add_params, json_param, text_param, currency_param, amount_param,
}

-- Parameters that are there, and the text of the first one with a name.
unfoldable pub params_of : List (Bytes × Option Bytes) → Map Bytes
params_of [] = []
params_of ((k, none) ∷ texts) = params_of texts
params_of ((k, some s) ∷ texts) = (k, s) ∷ params_of texts

abbrev pub listed : Bytes → List (Bytes × Option Bytes) → Option Bytes
listed k [] = none
listed k ((j, s) ∷ texts) = if eqb j k then or_else s (listed k texts) else listed k texts

lookup-params_of :
    (k : Bytes) (texts : List (Bytes × Option Bytes)) → lookup k (params_of texts) ≡ listed k texts
unfolding lookup params_of
lookup-params_of k [] = refl
lookup-params_of k ((j, none) ∷ texts) = ground (arith, lookup-params_of k texts)
lookup-params_of k ((j, some s) ∷ texts) = ground (arith, lookup-params_of k texts)

pub get-params_of :
    (texts : List (Bytes × Option Bytes)) (k : Bytes)
    → get (params_of texts) k ≡ or_empty (listed k texts)
unfolding get
get-params_of texts k = rw (lookup-params_of k texts) refl

-- A text that is not the empty string, when there is one.
abbrev pub IsNonempty : Option Bytes → Type 0
IsNonempty none = Unit
IsNonempty (some s) = s ≢ []

pub text_param-IsNonempty : (s : Option Bytes) → IsNonempty s → text_param (or_empty s) ≡ s
unfolding text_param or_empty
text_param-IsNonempty none h = refl
text_param-IsNonempty (some []) h = absurd (h refl)
text_param-IsNonempty (some (c ∷ s)) h = refl

pub currency_param-v1 :
    (s : Option Bytes) → IsNonempty s → currency_param (or_empty s) [] ≡ (s, pos 1)
unfolding currency_param or_empty
currency_param-v1 none h = refl
currency_param-v1 (some []) h = absurd (h refl)
currency_param-v1 (some (c ∷ s)) h = refl

-- The version that a request of version 0 comes back with: that of no currency is 1.
abbrev pub v0_version : Option Bytes → ℤ
v0_version none = pos 1
v0_version (some s) = pos 0

pub currency_param-v0 :
    (s : Option Bytes) → IsNonempty s → currency_param [] (or_empty s) ≡ (s, v0_version s)
unfolding currency_param or_empty
currency_param-v0 none h = refl
currency_param-v0 (some []) h = absurd (h refl)
currency_param-v0 (some (c ∷ s)) h = refl

pub amount_param-parts :
    (s : Bytes) (r : ℤ × Option Bytes) → amount_parts (split b'.' s) ≡ ok r → amount_param s ≡ ok r
unfolding amount_param amount_parts split parse_int
amount_param-parts [] r h = cc
amount_param-parts (c ∷ s) r h = h

module _ (lib : JsonLib) where
  -- A document that is written as a text, which is read back; no document and no text.
  abbrev pub IsTextOf : Option Json → Option Bytes → Type 0
  IsTextOf none none = Unit
  IsTextOf (some v) (some s) = (lib.write v ≡ ok s) × (s ≢ []) × (lib.read s ≡ ok v)
  IsTextOf _ _ = ⊥

  pub json_param-IsTextOf {ℓ} :
      {A : Type ℓ} (decode : Option Json → Result A) (v : Option Json) (s : Option Bytes)
      → IsTextOf v s
      → json_param lib decode (or_empty s) ≡ decode_pointer decode v
  unfolding json_param or_empty decode_pointer
  json_param-IsTextOf decode none none h = refl
  json_param-IsTextOf decode (some v) none h = absurd h
  json_param-IsTextOf decode none (some s) h = absurd h
  json_param-IsTextOf decode (some v) (some []) h = absurd (h.1 refl)
  json_param-IsTextOf decode (some v) (some (c ∷ s)) h = rw h.2 refl

  -- The texts of the fields of a struct.
  abbrev pub IsParam : Option Json → Option Bytes → Type 0
  IsParam none none = Unit
  IsParam (some v) (some s) = param_text lib v ≡ ok s
  IsParam _ _ = ⊥

  abbrev pub AreParams : List (Bytes × Option Json) → List (Bytes × Option Bytes) → Type 0
  AreParams [] [] = Unit
  AreParams ((k, v) ∷ fields) ((j, s) ∷ texts) = (j ≡ k) × IsParam v s × AreParams fields texts
  AreParams _ _ = ⊥

  pub add_params-struct :
      (fields : List (Bytes × Option Json)) (texts : List (Bytes × Option Bytes))
      → AreParams fields texts
      → add_params lib (struct_of fields) ≡ ok (params_of texts)
  unfolding add_params struct_of params_of
  add_params-struct [] [] h = refl
  add_params-struct [] (t ∷ texts) h = absurd h
  add_params-struct (f ∷ fields) [] h = absurd h
  add_params-struct ((k, none) ∷ fields) ((j, none) ∷ texts) h = add_params-struct fields texts h.2
  add_params-struct ((k, none) ∷ fields) ((j, some s) ∷ texts) h = absurd h.1
  add_params-struct ((k, some v) ∷ fields) ((j, none) ∷ texts) h = absurd h.1
  add_params-struct ((k, some v) ∷ fields) ((j, some s) ∷ texts) h =
      rw h.1 (rw (add_params-struct fields texts h.2) (rw h.0 refl))

  pub text-IsParam : (p : Option Bytes) → IsParam (encode_pointer text p) p
  unfolding encode_pointer param_text
  text-IsParam none = tt
  text-IsParam (some s) = refl

  pub map-IsParam :
      (p : Option Members) (s : Option Bytes)
      → DataIsKept lib p
      → IsTextOf (encode_pointer map_json p) s
      → IsParam (encode_pointer map_json p) s
  unfolding encode_pointer param_text
  map-IsParam none none kept h = tt
  map-IsParam none (some s) kept h = absurd h
  map-IsParam (some ms) none kept h = absurd h
  map-IsParam (some ms) (some s) kept h = rw (marshal-id lib.float (map_json ms) kept) h.0

  pub options-IsParam :
      (p : Option CounterPartyDataOptions) (s : Option Bytes)
      → IsTextOf (encode_pointer options_json p) s
      → IsParam (encode_pointer options_json p) s
  unfolding encode_pointer param_text
  options-IsParam none none h = tt
  options-IsParam none (some s) h = absurd h
  options-IsParam (some c) none h = absurd h
  options-IsParam (some c) (some s) h =
      rw (marshal-id lib.float (options_json c) (options_pointer-stable lib.float (some c))) h.0

  -- A number that is written as its digits.
  abbrev pub IsPlain : ℤ → Type 0
  IsPlain a = lib.write (encode_int a) ≡ ok (format_int a)

  pub number-IsParam :
      (a : ℤ)
      → IsFloat64 lib.float
      → IsExactInt a
      → IsPlain a
      → IsParam (some (encode_int a)) (some (format_int a))
  unfolding param_text
  number-IsParam a floats exact plain =
      rw (marshal-id lib.float (encode_int a) (floats.print_integer a exact)) plain
