-- ===== src/Go/Json/Decode.antt =====
-- json.Unmarshal into the types of struct fields. The argument is what the document has for the field,
-- `none` where it has nothing; then, and for null, a field keeps its zero value.
use uma_go_sdk.Base.{ℕ, Bool, false, Option, none, some, List, [], ◌∷◌, Bytes}
use uma_go_sdk.Base.Int.{ℤ, pos}
use uma_go_sdk.Go.Result.{Result, ok, err, or_error, ◌>>=◌, json_type_error}
use uma_go_sdk.Go.Strconv.{format_int, parse_int}
use uma_go_sdk.Go.Json.{
  Json, Items, Members, Float64, null, boolean, number, text, array, object, no_items, item,
  no_members, to_interface_members, items_of,
}

unfoldable pub decode_text : Option Json → Result Bytes
decode_text none = ok []
decode_text (some null) = ok []
decode_text (some (text s)) = ok s
decode_text (some _) = err json_type_error

unfoldable pub decode_bool : Option Json → Result Bool
decode_bool none = ok false
decode_bool (some null) = ok false
decode_bool (some (boolean b)) = ok b
decode_bool (some _) = err json_type_error

-- A field of type int64 or int.
unfoldable pub decode_int : Option Json → Result ℤ
decode_int none = ok (pos 0)
decode_int (some null) = ok (pos 0)
decode_int (some (number s)) = or_error (parse_int s) json_type_error
decode_int (some _) = err json_type_error

-- A field of type float64; the bits of 0 are 0.
unfoldable pub decode_float : Float64 → Option Json → Result ℕ
decode_float float none = ok 0
decode_float float (some null) = ok 0
decode_float float (some (number s)) = float.parse s
decode_float float (some _) = err json_type_error

unfoldable pub decode_items : Items → Result (List Bytes)
decode_items no_items = ok []
decode_items (item v xs) = decode_text (some v) >>= λ s. decode_items xs >>= λ ss. ok (s ∷ ss)

unfoldable pub decode_texts : Option Json → Result (List Bytes)
decode_texts none = ok []
decode_texts (some null) = ok []
decode_texts (some (array xs)) = decode_items xs
decode_texts (some _) = err json_type_error

-- The members of a document that is read into a struct.
unfoldable pub decode_struct : Option Json → Result Members
decode_struct none = ok no_members
decode_struct (some null) = ok no_members
decode_struct (some (object ms)) = ok ms
decode_struct (some _) = err json_type_error

-- A field of type map[string]interface{}.
unfoldable pub decode_map : Float64 → Option Json → Result Members
decode_map float none = ok no_members
decode_map float (some null) = ok no_members
decode_map float (some (object ms)) = to_interface_members float ms
decode_map float (some _) = err json_type_error

-- A pointer field: null is nil.
unfoldable pub decode_pointer {ℓ} :
    {A : Type ℓ} → (Option Json → Result A) → Option Json → Result (Option A)
decode_pointer decode none = ok none
decode_pointer decode (some null) = ok none
decode_pointer decode (some v) = decode (some v) >>= λ a. ok (some a)

-- A pointer field that `omitempty` leaves out when it is nil.
unfoldable pub encode_pointer {ℓ} : {A : Type ℓ} → (A → Json) → Option A → Option Json
encode_pointer encode none = none
encode_pointer encode (some a) = some (encode a)

abbrev pub encode_int : ℤ → Json
encode_int i = number (format_int i)

abbrev pub encode_texts : List Bytes → Json
encode_texts ss = array (items_of ss)
