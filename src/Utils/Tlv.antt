-- ===== src/Utils/Tlv.antt =====
-- uma/utils/tlv_utils.go: structs as sequences of type, length and value. What `reflect` shows of a
-- field is data here: `Value` has one constructor for each kind that the code tells apart, and one
-- for each of the two interfaces; `Fields` is a struct, each field with its tag.
pub mod Coders
pub mod Entries
pub mod Encodable
pub mod Agreement
pub mod RoundTrip
pub mod Long
mod Tests
use uma_go_sdk.Base.{
  ℕ, zero, suc, ◌+◌, ◌-◌, ◌%◌, ◌^◌, Bool, true, false, Option, none, some, List, [], ◌∷◌, ◌++◌,
  Bytes, codes, ltb, ◌==◌, length, take, drop, if◌then◌else◌, not,
}
use uma_go_sdk.Base.Int.{ℤ, pos, negsuc, wrap_int}
use uma_go_sdk.Go.Result.{
  Result, ok, err, panic, or_error, ◌>>=◌, bad_number, unsupported_kind, incomplete_tlv,
  incomplete_value, missing_tlv,
}
use uma_go_sdk.Go.Strconv.{format_int, format_uint, parse_int, parse_uint}
use Coders.{Codable, encode, decode}

mutual
  pub data Value : Type 0 where
    string_value : Bytes → Value
    -- The number of bits, and the value.
    int_value : ℕ → ℤ → Value
    uint_value : ℕ → ℕ → Value
    bool_value : Bool → Value
    -- `[]byte`: nil or bytes.
    slice_value : Option Bytes → Value
    -- A nil pointer comes with the zero value of the type that it points to.
    nil_pointer : Value → Value
    pointer : Value → Value
    -- A type that implements `TLVCodable` does so by `MarshalTLV` and `UnmarshalTLV` of this file.
    tlv_codable : Fields → Value
    bytes_codable : Codable → Value
    other_kind : Value

  pub data Fields : Type 0 where
    end : Fields
    field : Bytes → Value → Fields → Fields

-- The byte of a tag: none for a field with no tag, and an error for a tag that is no number.
unfoldable pub tag_byte : Bytes → Result (Option ℕ)
tag_byte [] = ok none
tag_byte (c ∷ s) = elim (parse_int (c ∷ s)) [
  | none ↦ err bad_number
  | some (pos n) ↦ ok (some (n % 256))
  | some (negsuc n) ↦ ok (some (255 - n % 256))
]

-- A slice to which nothing was appended is nil.
unfoldable pub nil_if_empty : Bytes → Option Bytes
nil_if_empty [] = none
nil_if_empty (c ∷ s) = some (c ∷ s)

-- What a field adds to the result: `byte(len(content))` keeps the low byte of the length.
unfoldable pub entry : Option ℕ → Option Bytes → Bytes
entry (some t) (some content) = t ∷ (length content % 256) ∷ content
entry _ _ = []

unfoldable mutual
  -- The closure `handle` of MarshalTLV; `none` is nil.
  pub handle : Value → Result (Option Bytes)
  handle (string_value s) = ok (some s)
  handle (int_value bits i) = ok (some (format_int i))
  handle (uint_value bits n) = ok (some (format_uint n))
  handle (bool_value b) = ok (some ((if b then 1 else 0) ∷ []))
  handle (slice_value s) = ok s
  handle (nil_pointer z) = ok none
  handle (pointer v) = handle v
  handle (tlv_codable fs) = marshal_tlv fs >>= λ s. ok (nil_if_empty s)
  handle (bytes_codable c) = ok (some (encode c))
  handle other_kind = err unsupported_kind

  -- The loop over the fields. A field with no tag is not handled at all.
  pub marshal_tlv : Fields → Result Bytes
  marshal_tlv end = ok []
  marshal_tlv (field tag v fs) = tag_byte tag >>= λ t.
      elim t [ none ↦ ok none | some _ ↦ handle v ] >>= λ content.
      marshal_tlv fs >>= λ rest. ok (entry t content ++ rest)

-- The map from types to values that UnmarshalTLV reads its input into.
abbrev pub Contents : Type 0
Contents = ℕ → Option Bytes

abbrev pub store : Contents → ℕ → Bytes → Contents
store m t content k = if t == k then some content else m k

-- data[:n] and data[n:] of the input that is left: out of range they panic.
slice_to : ℕ → Bytes → Result Bytes
slice_to n s = if ltb (length s) n then panic else ok (take n s)

slice_from : ℕ → Bytes → Result Bytes
slice_from n s = if ltb (length s) n then panic else ok (drop n s)

-- The first loop of UnmarshalTLV over the input that is left. Each round takes two bytes at least,
-- so fuel of the length of the input is enough; fuel that has run out panics.
unfoldable pub read_entries : ℕ → Bytes → Contents → Result Contents
unfolding slice_to slice_from
read_entries fuel [] m = ok m
read_entries zero (t ∷ s) m = panic
read_entries (suc fuel) (t ∷ []) m = err incomplete_tlv
read_entries (suc fuel) (t ∷ l ∷ s) m =
    let rest = slice_to l s >>= λ v. slice_from l s >>= λ s'. read_entries fuel s' (store m t v) in
    if ltb (length s) l then err incomplete_value else rest

abbrev pub nothing : Contents
nothing t = none

unfoldable pub is_pointer : Value → Bool
is_pointer (nil_pointer z) = true
is_pointer (pointer v) = true
is_pointer _ = false

first_byte : Bytes → Result ℕ
first_byte [] = panic
first_byte (c ∷ s) = ok c

unfoldable mutual
  unfolding first_byte is_pointer

  -- The closure `handle` of UnmarshalTLV: the field with the value that it is given.
  pub set_value : Value → Bytes → Result Value
  set_value (string_value _) s = ok (string_value s)
  set_value (int_value bits _) s =
      or_error (parse_int s) bad_number >>= λ i. ok (int_value bits (wrap_int bits i))
  set_value (uint_value bits _) s =
      or_error (parse_uint s) bad_number >>= λ n. ok (uint_value bits (n % 2 ^ bits))
  set_value (bool_value _) s = first_byte s >>= λ c. ok (bool_value (not (c == 0)))
  set_value (slice_value _) s = ok (slice_value (some s))
  set_value (nil_pointer z) s = set_value z s >>= λ v. ok (pointer v)
  set_value (pointer v) s = set_value v s >>= λ v'. ok (pointer v')
  set_value (tlv_codable fs) s =
      read_entries (length s) s nothing >>= λ m. set_fields fs m >>= λ fs'. ok (tlv_codable fs')
  set_value (bytes_codable c) s = decode c s >>= λ c'. ok (bytes_codable c')
  set_value other_kind s = err unsupported_kind

  -- The loop over the fields of UnmarshalTLV.
  pub set_fields : Fields → Contents → Result Fields
  set_fields end m = ok end
  set_fields (field tag v fs) m = tag_byte tag >>= λ t.
      elim t [
        | none ↦ ok v
        | some b ↦ elim (m b) [
          | none ↦ if is_pointer v then ok v else err missing_tlv
          | some content ↦ set_value v content
        ]
      ]
      >>= λ v'. set_fields fs m >>= λ fs'. ok (field tag v' fs')

unfoldable pub unmarshal_tlv : Fields → Bytes → Result Fields
unmarshal_tlv fs s = read_entries (length s) s nothing >>= λ m. set_fields fs m
