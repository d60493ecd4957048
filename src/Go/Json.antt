-- ===== src/Go/Json.antt =====
-- `encoding/json` over values in place of text. A `Json` is a JSON document, or what an `interface{}`
-- holds: nil, a bool, a float64 (as the text that is written for it), a string, a slice, a map, or a
-- pointer to a string. An object holds a key once, and keys are matched as they are spelled.
pub mod Decode
pub mod Laws
pub mod Slices
pub mod Safe
use uma_go_sdk.Base.{ℕ, Bool, Option, none, some, List, [], ◌∷◌, Bytes, eqb, if◌then◌else◌}
use uma_go_sdk.Base.Int.{ℤ}
use uma_go_sdk.Go.Result.{Result, ok, ◌>>=◌}

mutual
  pub data Json : Type 0 where
    null : Json
    boolean : Bool → Json
    number : Bytes → Json
    text : Bytes → Json
    array : Items → Json
    object : Members → Json
    string_pointer : Option Bytes → Json

  pub data Items : Type 0 where
    no_items : Items
    item : Json → Items → Items

  pub data Members : Type 0 where
    no_members : Members
    member : Bytes → Json → Members → Members

-- v, ok := m[k]
unfoldable pub get_member : Bytes → Members → Option Json
get_member k no_members = none
get_member k (member j v ms) = if eqb j k then some v else get_member k ms

-- m[k] = v
unfoldable pub set_member : Bytes → Json → Members → Members
set_member k v no_members = member k v no_members
set_member k v (member j w ms) =
    let rest = set_member k v ms in if eqb j k then member k v ms else member j w rest

-- A struct as an object: a field that is left out by `omitempty` is `none`.
unfoldable pub struct_of : List (Bytes × Option Json) → Members
struct_of [] = no_members
struct_of ((k, none) ∷ fields) = struct_of fields
struct_of ((k, some v) ∷ fields) = member k v (struct_of fields)

unfoldable pub items_of : List Bytes → Items
items_of [] = no_items
items_of (s ∷ ss) = item (text s) (items_of ss)

-- What is used of float64, which is kept as its 64 bits, and of strconv on it.
pub record Float64 : Type 0 where
  -- strconv.ParseFloat, and the text that encoding/json writes, which fails on NaN and infinities.
  pub parse : Bytes → Result ℕ
  pub print : ℕ → Result Bytes
  pub of_int : ℤ → ℕ
  pub mul : ℕ → ℕ → ℕ
  pub div : ℕ → ℕ → ℕ
  -- math.Round, and the conversion to int64.
  pub round : ℕ → ℕ
  pub to_int64 : ℕ → ℤ

-- The text form of documents, and floating point numbers.
pub record JsonLib : Type 0 where
  pub float : Float64
  pub write : Json → Result Bytes
  pub read : Bytes → Result Json

unfoldable mutual
  -- json.Marshal of an `interface{}`: its document.
  pub marshal : Json → Json
  marshal (array xs) = array (marshal_items xs)
  marshal (object ms) = object (marshal_members ms)
  marshal (string_pointer none) = null
  marshal (string_pointer (some s)) = text s
  marshal null = null
  marshal (boolean b) = boolean b
  marshal (number s) = number s
  marshal (text s) = text s

  pub marshal_items : Items → Items
  marshal_items no_items = no_items
  marshal_items (item v xs) = item (marshal v) (marshal_items xs)

  pub marshal_members : Members → Members
  marshal_members no_members = no_members
  marshal_members (member k v ms) = member k (marshal v) (marshal_members ms)

module _ (float : Float64) where
  unfoldable mutual
    -- json.Unmarshal of a document into an `interface{}`: each number becomes a float64.
    pub to_interface : Json → Result Json
    to_interface (number s) = float.parse s >>= λ f. float.print f >>= λ t. ok (number t)
    to_interface (array xs) = to_interface_items xs >>= λ ys. ok (array ys)
    to_interface (object ms) = to_interface_members ms >>= λ ns. ok (object ns)
    to_interface null = ok null
    to_interface (boolean b) = ok (boolean b)
    to_interface (text s) = ok (text s)
    to_interface (string_pointer p) = ok (string_pointer p)

    pub to_interface_items : Items → Result Items
    to_interface_items no_items = ok no_items
    to_interface_items (item v xs) =
        to_interface v >>= λ w. to_interface_items xs >>= λ ys. ok (item w ys)

    pub to_interface_members : Members → Result Members
    to_interface_members no_members = ok no_members
    to_interface_members (member k v ms) =
        to_interface v >>= λ w. to_interface_members ms >>= λ ns. ok (member k w ns)
