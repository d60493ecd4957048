-- ===== src/Go/Json/Laws.antt =====
-- Objects written from structs, and values that pass through `interface{}` unchanged.
use uma_go_sdk.Base.{
  ℕ, ◌≤◌, ◌^◌, Option, none, some, List, [], ◌∷◌, ◌≡◌, refl, arith, Bytes, eqb, eqb_iff,
  if◌then◌else◌, Bool-cases, inl, inr,
}
use uma_go_sdk.Base.Int.{ℤ, pos_part, neg_part, IsInt64}
use uma_go_sdk.Go.Result.{ok, ◌>>=◌, >>=-ok}
use uma_go_sdk.Go.Strconv.{format_int}
use uma_go_sdk.Go.Strconv.RoundTrip.{parse_int-format_int}
use uma_go_sdk.Go.Json.{
  Json, Items, Members, Float64, null, boolean, number, text, array, object, string_pointer,
  no_items, item, no_members, member, get_member, set_member, struct_of, items_of, marshal,
  marshal_items, marshal_members, to_interface, to_interface_items, to_interface_members,
}
use uma_go_sdk.Go.Json.Decode.{
  decode_text, decode_int, decode_items, decode_pointer, encode_pointer, encode_texts, decode_texts,
  encode_int,
}

module _ {ℓ} {A : Type ℓ} where
  abbrev pub or_else : Option A → Option A → Option A
  or_else none b = b
  or_else (some a) b = some a

  pub or_else-none : (a : Option A) → or_else a none ≡ a
  or_else-none none = refl
  or_else-none (some a) = refl

-- The value of the first field of this name that is not left out.
abbrev pub listed : Bytes → List (Bytes × Option Json) → Option Json
listed k [] = none
listed k ((j, v) ∷ fields) = if eqb j k then or_else v (listed k fields) else listed k fields

pub get-struct_of :
    (k : Bytes) (fields : List (Bytes × Option Json))
    → get_member k (struct_of fields) ≡ listed k fields
unfolding get_member struct_of
get-struct_of k [] = refl
get-struct_of k ((j, none) ∷ fields) = ground (arith, get-struct_of k fields)
get-struct_of k ((j, some v) ∷ fields) = ground (arith, get-struct_of k fields)

pub get-set_member :
    (k j : Bytes) (v : Json) (ms : Members)
    → get_member j (set_member k v ms) ≡ (if eqb k j then some v else get_member j ms)
unfolding get_member set_member
get-set_member k j v no_members = refl
get-set_member k j v (member i w ms) =
    ground (arith, eqb_iff k j, eqb_iff i k, eqb_iff i j, get-set_member k j v ms)

abbrev pub marshal_optional : Option Json → Option Json
marshal_optional none = none
marshal_optional (some v) = some (marshal v)

pub get_member-marshal :
    (k : Bytes) (ms : Members)
    → get_member k (marshal_members ms) ≡ marshal_optional (get_member k ms)
unfolding get_member marshal
get_member-marshal k no_members = refl
get_member-marshal k (member j v ms) = elim (Bool-cases (eqb j k)) [
  | inl e ↦ rw e refl
  | inr e ↦ rw e (get_member-marshal k ms)
]

-- An integer that a float64 holds exactly.
abbrev pub IsExactInt : ℤ → Type 0
IsExactInt a = (pos_part a ≤ 2 ^ 53) × (neg_part a ≤ 2 ^ 53)

-- An integer field that every step keeps.
abbrev pub IsKeptInt : ℤ → Type 0
IsKeptInt a = IsInt64 a × IsExactInt a

-- What is relied on of float64: the text of a number is read back as that number, and an integer that
-- it holds exactly is written as an integer.
pub record IsFloat64 (float : Float64) : Type 0 where
  pub parse-print : (bits : ℕ) (s : Bytes) → float.print bits ≡ ok s → float.parse s ≡ ok bits
  pub print_integer :
      (a : ℤ) → IsExactInt a → (float.parse (format_int a) >>= float.print) ≡ ok (format_int a)

module _ (float : Float64) where
  -- A value that a document and an `interface{}` hold alike.
  abbrev mutual
    pub IsStable : Json → Type 0
    IsStable (number s) = (float.parse s >>= float.print) ≡ ok s
    IsStable (array xs) = AreStable xs
    IsStable (object ms) = HasStable ms
    IsStable (string_pointer p) = ⊥
    IsStable null = Unit
    IsStable (boolean b) = Unit
    IsStable (text s) = Unit

    pub AreStable : Items → Type 0
    AreStable no_items = Unit
    AreStable (item v xs) = IsStable v × AreStable xs

    pub HasStable : Members → Type 0
    HasStable no_members = Unit
    HasStable (member k v ms) = IsStable v × HasStable ms

  number-stable :
      (s : Bytes)
      → (float.parse s >>= float.print) ≡ ok s
      → (float.parse s >>= λ f. float.print f >>= λ t. ok (number t)) ≡ ok (number s)
  number-stable s h = let (f, ef, ep) = >>=-ok (float.parse s) float.print h in rw ef (rw ep refl)

  mutual
    unfolding to_interface marshal

    pub to_interface-id : (v : Json) → IsStable v → to_interface float v ≡ ok v
    to_interface-id (number s) h = number-stable s h
    to_interface-id (array xs) h = rw (to_interface_items-id xs h) refl
    to_interface-id (object ms) h = rw (to_interface_members-id ms h) refl
    to_interface-id (string_pointer p) h = absurd h
    to_interface-id null h = refl
    to_interface-id (boolean b) h = refl
    to_interface-id (text s) h = refl

    pub to_interface_items-id : (xs : Items) → AreStable xs → to_interface_items float xs ≡ ok xs
    to_interface_items-id no_items h = refl
    to_interface_items-id (item v xs) h =
        rw (to_interface-id v h.0) (rw (to_interface_items-id xs h.1) refl)

    pub to_interface_members-id :
        (ms : Members) → HasStable ms → to_interface_members float ms ≡ ok ms
    to_interface_members-id no_members h = refl
    to_interface_members-id (member k v ms) h =
        rw (to_interface-id v h.0) (rw (to_interface_members-id ms h.1) refl)

  mutual
    unfolding marshal

    pub marshal-id : (v : Json) → IsStable v → marshal v ≡ v
    marshal-id (number s) h = refl
    marshal-id (array xs) h = rw (marshal_items-id xs h)
    marshal-id (object ms) h = rw (marshal_members-id ms h)
    marshal-id (string_pointer p) h = absurd h
    marshal-id null h = refl
    marshal-id (boolean b) h = refl
    marshal-id (text s) h = refl

    pub marshal_items-id : (xs : Items) → AreStable xs → marshal_items xs ≡ xs
    marshal_items-id no_items h = refl
    marshal_items-id (item v xs) h = rw (marshal-id v h.0) (rw (marshal_items-id xs h.1) refl)

    pub marshal_members-id : (ms : Members) → HasStable ms → marshal_members ms ≡ ms
    marshal_members-id no_members h = refl
    marshal_members-id (member k v ms) h =
        rw (marshal-id v h.0) (rw (marshal_members-id ms h.1) refl)

  -- A struct whose fields are written as stable values.
  abbrev pub OptionIsStable : Option Json → Type 0
  OptionIsStable none = Unit
  OptionIsStable (some v) = IsStable v

  abbrev pub FieldsAreStable : List (Bytes × Option Json) → Type 0
  FieldsAreStable [] = Unit
  FieldsAreStable ((k, v) ∷ fields) = OptionIsStable v × FieldsAreStable fields

  pub struct_of-HasStable :
      (fields : List (Bytes × Option Json)) → FieldsAreStable fields → HasStable (struct_of fields)
  unfolding struct_of
  struct_of-HasStable [] h = tt
  struct_of-HasStable ((k, none) ∷ fields) h = struct_of-HasStable fields h.1
  struct_of-HasStable ((k, some v) ∷ fields) h = (h.0, struct_of-HasStable fields h.1)

  pub set_member-HasStable :
      (k : Bytes) (v : Json) (ms : Members)
      → IsStable (marshal v)
      → HasStable (marshal_members ms)
      → HasStable (marshal_members (set_member k v ms))
  unfolding marshal set_member
  set_member-HasStable k v no_members h t = (h, tt)
  set_member-HasStable k v (member j w ms) h t = elim (Bool-cases (eqb j k)) [
    | inl e ↦ rw e (h, t.1)
    | inr e ↦ rw e (t.0, set_member-HasStable k v ms h t.1)
  ]

  pub text_pointer-stable : (p : Option Bytes) → OptionIsStable (encode_pointer text p)
  unfolding encode_pointer
  text_pointer-stable none = tt
  text_pointer-stable (some s) = tt

  pub items_of-AreStable : (ss : List Bytes) → AreStable (items_of ss)
  unfolding items_of
  items_of-AreStable [] = tt
  items_of-AreStable (s ∷ ss) = (tt, items_of-AreStable ss)

  pub texts_pointer-stable :
      (p : Option (List Bytes)) → OptionIsStable (encode_pointer encode_texts p)
  unfolding encode_pointer
  texts_pointer-stable none = tt
  texts_pointer-stable (some ss) = items_of-AreStable ss

pub decode-items_of : (ss : List Bytes) → decode_items (items_of ss) ≡ ok ss
unfolding decode_items items_of decode_text
decode-items_of [] = refl
decode-items_of (s ∷ ss) = rw (decode-items_of ss) refl

pub decode-int : (a : ℤ) → IsInt64 a → decode_int (some (number (format_int a))) ≡ ok a
unfolding decode_int
decode-int a h = rw (parse_int-format_int a h) refl

-- Pointers of three kinds are read back.
pub decode-text_pointer :
    (p : Option Bytes) → decode_pointer decode_text (encode_pointer text p) ≡ ok p
unfolding decode_pointer encode_pointer decode_text
decode-text_pointer none = refl
decode-text_pointer (some s) = refl

pub decode-texts_pointer :
    (p : Option (List Bytes)) → decode_pointer decode_texts (encode_pointer encode_texts p) ≡ ok p
unfolding decode_pointer encode_pointer decode_texts
decode-texts_pointer none = refl
decode-texts_pointer (some ss) = rw (decode-items_of ss) refl

abbrev pub IsOptionalInt64 : Option ℤ → Type 0
IsOptionalInt64 none = Unit
IsOptionalInt64 (some a) = IsInt64 a

pub decode-int_pointer :
    (p : Option ℤ)
    → IsOptionalInt64 p
    → decode_pointer decode_int (encode_pointer encode_int p) ≡ ok p
unfolding decode_pointer encode_pointer
decode-int_pointer none h = refl
decode-int_pointer (some a) h = rw (decode-int a h) refl
