-- ===== src/Utils/Tlv/Tests.antt =====
-- uma/utils/tlv_utils.go at concrete structs.
use uma_go_sdk.Base.{
  ℕ, zero, suc, ◌≡◌, ◌≢◌, ◌%◌, refl, true, [], ◌∷◌, ◌++◌, Bytes, codes, length, arith,
}
use uma_go_sdk.Base.Int.{negsuc, wrap_int}
use uma_go_sdk.Go.Result.{ok, panic}
use uma_go_sdk.Go.Strconv.{parse_int, parse_uint, format_int, format_uint}
use uma_go_sdk.Utils.Tlv.{
  Fields, string_value, int_value, bool_value, nil_pointer, tlv_codable, end, field, tag_byte,
  handle, marshal_tlv, entry, nothing, read_entries, set_fields, unmarshal_tlv, nil_if_empty,
}
use uma_go_sdk.Utils.Tlv.Encodable.{
  IsEncodable, of_string, of_int, of_tlv, no_fields, present, missing,
}
use uma_go_sdk.Utils.Tlv.RoundTrip.{zero_fields, tlv-unmarshal-marshal}
use uma_go_sdk.Utils.Tlv.Entries.{read_entries-ne-panic}
use uma_go_sdk.Utils.Tlv.Long.{long_string_lost}

-- A nested struct, a negative number and a nil pointer.
abbrev inner : Fields
inner = field (codes "0") (string_value (codes "world")) end

abbrev outer : Fields
outer =
    field (codes "1") (int_value 64 (negsuc 41)) (
      field (codes "4") (tlv_codable inner) (field (codes "6") (nil_pointer (string_value [])) end))

inner-IsEncodable : IsEncodable inner
unfolding tag_byte parse_int parse_uint handle
inner-IsEncodable =
    present {v = string_value (codes "world")} 0 refl tt (omega arith) (of_string (codes "world"))
      no_fields

outer-IsEncodable : IsEncodable outer
unfolding tag_byte parse_int parse_uint handle marshal_tlv entry nil_if_empty format_int format_uint
    wrap_int
outer-IsEncodable =
    present {v = int_value 64 (negsuc 41)} 1 refl (λ e. cc, (λ e. cc, tt)) (omega arith)
      (of_int 64 (negsuc 41) (omega arith) refl)
      (present {v = tlv_codable inner} 4 refl (λ e. cc, tt) (omega arith)
        (of_tlv inner-IsEncodable (λ e. cc)) (missing {z = string_value []} 6 refl tt no_fields))

tlv-unmarshal-marshal_example :
    (s : Bytes) × (marshal_tlv outer ≡ ok s) × (unmarshal_tlv (zero_fields outer) s ≡ ok outer)
tlv-unmarshal-marshal_example = tlv-unmarshal-marshal outer outer-IsEncodable

written : marshal_tlv outer ≡ ok (1 ∷ 3 ∷ codes "-42" ++ 4 ∷ 7 ∷ 0 ∷ 5 ∷ codes "world")
unfolding marshal_tlv handle entry nil_if_empty tag_byte parse_int parse_uint format_int format_uint
written = refl

read_entries-ne-panic_example : read_entries 3 (1 ∷ 9 ∷ 7 ∷ []) nothing ≢ panic
read_entries-ne-panic_example = read_entries-ne-panic 3 (1 ∷ 9 ∷ 7 ∷ []) nothing (omega arith)

-- A message whose content for a bool is empty makes the code index out of range.
empty_bool_panics : unmarshal_tlv (field (codes "5") (bool_value true) end) (5 ∷ 0 ∷ []) ≡ panic
unfolding unmarshal_tlv set_fields read_entries tag_byte parse_int parse_uint
empty_bool_panics = refl

abbrev repeat : ℕ → Bytes
repeat zero = []
repeat (suc n) = b'a' ∷ repeat n

long_string_lost_example :
    (marshal_tlv (field (codes "12") (string_value (repeat 256)) end)
      ≡ ok (12 ∷ (length (repeat 256) % 256) ∷ (repeat 256 ++ [])))
    × (unmarshal_tlv (field (codes "12") (string_value []) end) (12 ∷ 0 ∷ repeat 256)
        ≢ ok (field (codes "12") (string_value (repeat 256)) end))
long_string_lost_example =
    long_string_lost (codes "12") [] (repeat 256) end end 12 [] (12 ∷ 0 ∷ repeat 256)
      (unfold tag_byte parse_int parse_uint in refl) (omega arith) (unfold marshal_tlv in refl)
      (omega arith)
