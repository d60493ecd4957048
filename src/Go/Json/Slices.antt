-- ===== src/Go/Json/Slices.antt =====
-- Slices of structs and maps of strings in encoding/json. A slice that is nil is `none`.
use uma_go_sdk.Base.{Bool, Option, none, some, List, [], ◌∷◌, ◌≡◌, refl, All, Bytes}
use uma_go_sdk.Go.Result.{Result, ok, err, ◌>>=◌, json_type_error}
use uma_go_sdk.Go.Json.{
  boolean, Json, Items, Members, Float64, null, text, array, object, no_items, item, no_members,
  member,
}
use uma_go_sdk.Go.Json.Decode.{decode_text, decode_bool, decode_pointer, encode_pointer}
use uma_go_sdk.Go.Json.Laws.{IsStable, AreStable, HasStable}

module _ {ℓ} {A : Type ℓ} where
  unfoldable pub list_items : (A → Json) → List A → Items
  list_items encode [] = no_items
  list_items encode (a ∷ bs) = item (encode a) (list_items encode bs)

  -- A slice without `omitempty`: nil is null.
  unfoldable pub encode_slice : (A → Json) → Option (List A) → Json
  encode_slice encode none = null
  encode_slice encode (some bs) = array (list_items encode bs)

  unfoldable pub decode_list : (Option Json → Result A) → Items → Result (List A)
  decode_list decode no_items = ok []
  decode_list decode (item v xs) =
      decode (some v) >>= λ a. decode_list decode xs >>= λ bs. ok (a ∷ bs)

  unfoldable pub decode_array : (Option Json → Result A) → Option Json → Result (List A)
  decode_array decode none = ok []
  decode_array decode (some null) = ok []
  decode_array decode (some (array xs)) = decode_list decode xs
  decode_array decode (some _) = err json_type_error

  unfoldable pub decode_slice : (Option Json → Result A) → Option Json → Result (Option (List A))
  decode_slice decode v = decode_pointer (decode_array decode) v

-- A map[string]string, as the list of its keys and values.
unfoldable pub text_members : List (Bytes × Bytes) → Members
text_members [] = no_members
text_members ((k, s) ∷ m) = member k (text s) (text_members m)

abbrev pub text_map_json : List (Bytes × Bytes) → Json
text_map_json m = object (text_members m)

unfoldable pub decode_text_members : Members → Result (List (Bytes × Bytes))
decode_text_members no_members = ok []
decode_text_members (member k v ms) =
    decode_text (some v) >>= λ s. decode_text_members ms >>= λ m. ok ((k, s) ∷ m)

unfoldable pub decode_text_map : Option Json → Result (List (Bytes × Bytes))
decode_text_map none = ok []
decode_text_map (some null) = ok []
decode_text_map (some (object ms)) = decode_text_members ms
decode_text_map (some _) = err json_type_error

pub decode-text_members : (m : List (Bytes × Bytes)) → decode_text_members (text_members m) ≡ ok m
unfolding decode_text_members text_members decode_text
decode-text_members [] = refl
decode-text_members ((k, s) ∷ m) = rw (decode-text_members m) refl

pub text_members-HasStable :
    (float : Float64) (m : List (Bytes × Bytes)) → HasStable float (text_members m)
unfolding text_members
text_members-HasStable float [] = tt
text_members-HasStable float ((k, s) ∷ m) = (tt, text_members-HasStable float m)

-- Slices whose elements are read back, or are stable, or are so where a predicate holds.
abbrev pub AllOf {ℓ} : {A : Type ℓ} → (A → Type 0) → Option (List A) → Type 0
AllOf P none = Unit
AllOf P (some bs) = All P bs

module _ {ℓ} {A : Type ℓ} (P : A → Type 0) (encode : A → Json) where
  module _ (decode : Option Json → Result A)
      (read_back : (a : A) → P a → decode (some (encode a)) ≡ ok a) where
    pub decode-list_items :
        (bs : List A) → All P bs → decode_list decode (list_items encode bs) ≡ ok bs
    unfolding decode_list list_items
    decode-list_items [] h = refl
    decode-list_items (a ∷ bs) h = rw (read_back a h.0) (rw (decode-list_items bs h.1) refl)

    pub decode-encode_slice :
        (u : Option (List A))
        → AllOf P u
        → decode_slice decode (some (encode_slice encode u)) ≡ ok u
    unfolding decode_slice decode_pointer decode_array encode_slice
    decode-encode_slice none h = refl
    decode-encode_slice (some bs) h = rw (decode-list_items bs h) refl

  module _ (float : Float64) (stable : (a : A) → P a → IsStable float (encode a)) where
    list_items-AreStable : (bs : List A) → All P bs → AreStable float (list_items encode bs)
    unfolding list_items
    list_items-AreStable [] h = tt
    list_items-AreStable (a ∷ bs) h = (stable a h.0, list_items-AreStable bs h.1)

    pub encode_slice-IsStable :
        (u : Option (List A)) → AllOf P u → IsStable float (encode_slice encode u)
    unfolding encode_slice
    encode_slice-IsStable none h = tt
    encode_slice-IsStable (some bs) h = list_items-AreStable bs h

pub decode-bool_pointer :
    (b : Option Bool) → decode_pointer decode_bool (encode_pointer boolean b) ≡ ok b
unfolding decode_pointer encode_pointer decode_bool
decode-bool_pointer none = refl
decode-bool_pointer (some b) = refl
