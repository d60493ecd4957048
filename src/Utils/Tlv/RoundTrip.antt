-- ===== src/Utils/Tlv/RoundTrip.antt =====
-- A struct through MarshalTLV and UnmarshalTLV of uma/utils/tlv_utils.go.
use uma_go_sdk.Base.{
  ℕ, ◌≤◌, ◌≡◌, ◌≢◌, refl, Bool, true, false, Option, none, some, [], ◌∷◌, Bytes, length,
  if◌then◌else◌, sym, ap, ◌∙◌, ◌%◌, ◌^◌,
}
use uma_go_sdk.Base.Int.{ℤ, pos, wrap_int, IsInt64}
use uma_go_sdk.Go.Result.{Result, ok}
use uma_go_sdk.Go.Strconv.{format_int, format_uint, max_u64}
use uma_go_sdk.Go.Strconv.RoundTrip.{parse_int-format_int, parse_uint-format_uint}
use uma_go_sdk.Utils.Tlv.{
  Value, Fields, string_value, int_value, uint_value, bool_value, slice_value, nil_pointer, pointer,
  tlv_codable, bytes_codable, other_kind, end, field, tag_byte, handle, marshal_tlv, Contents,
  nothing, read_entries, set_value, set_fields, unmarshal_tlv,
}
use uma_go_sdk.Utils.Tlv.Coders.{Codable, encode, decode}
use uma_go_sdk.Utils.Tlv.Entries.{flat, store_all}
use uma_go_sdk.Utils.Tlv.Encodable.{
  zero_codable, decode-encode, HasContent, IsEncodable, of_string, of_int, of_uint, of_bool,
  of_slice, of_pointer, of_tlv, of_codable, no_fields, present, missing, emitted, handle-some,
  marshal-emitted, handle_tlv,
}
use uma_go_sdk.Utils.Tlv.Agreement.{AllMissing-nothing, Agrees, Agrees-emitted, read_back}

-- The zero value of a value's type: what a new struct holds.
unfoldable mutual
  pub zero_value : Value → Value
  zero_value (string_value s) = string_value []
  zero_value (int_value bits i) = int_value bits (pos 0)
  zero_value (uint_value bits n) = uint_value bits 0
  zero_value (bool_value b) = bool_value false
  zero_value (slice_value s) = slice_value none
  zero_value (nil_pointer z) = nil_pointer z
  zero_value (pointer v) = nil_pointer (zero_value v)
  zero_value (tlv_codable fs) = tlv_codable (zero_fields fs)
  zero_value (bytes_codable c) = bytes_codable (zero_codable c)
  zero_value other_kind = other_kind

  pub zero_fields : Fields → Fields
  zero_fields end = end
  zero_fields (field tag v fs) = field tag (zero_value v) (zero_fields fs)

-- The steps of the loop over the fields.
set_present :
    (tag : Bytes) (z v : Value) (fs fs' : Fields) (m : Contents) (t : ℕ) (s : Bytes)
    → tag_byte tag ≡ ok (some t)
    → m t ≡ some s
    → set_value z s ≡ ok v
    → set_fields fs m ≡ ok fs'
    → set_fields (field tag z fs) m ≡ ok (field tag v fs')
set_present tag z v fs fs' m t s e h k r = unfold set_fields in simp (e, h, k, r)

set_missing :
    (tag : Bytes) (z : Value) (fs fs' : Fields) (m : Contents) (t : ℕ)
    → tag_byte tag ≡ ok (some t)
    → m t ≡ none
    → set_fields fs m ≡ ok fs'
    → set_fields (field tag (nil_pointer z) fs) m ≡ ok (field tag (nil_pointer z) fs')
set_missing tag z fs fs' m t e h r = unfold set_fields in simp (e, h, r)

set_tlv :
    (z fs : Fields) (s : Bytes) (m : Contents)
    → read_entries (length s) s nothing ≡ ok m
    → set_fields z m ≡ ok fs
    → set_value (tlv_codable z) s ≡ ok (tlv_codable fs)
set_tlv z fs s m e h = unfold set_value in simp (e, h)

set_int :
    (bits : ℕ) (i : ℤ)
    → IsInt64 i
    → wrap_int bits i ≡ i
    → set_value (int_value bits (pos 0)) (format_int i) ≡ ok (int_value bits i)
set_int bits i h k = unfold set_value in simp (parse_int-format_int i h, k)

set_uint :
    (bits n : ℕ)
    → n ≤ max_u64
    → n % 2 ^ bits ≡ n
    → set_value (uint_value bits 0) (format_uint n) ≡ ok (uint_value bits n)
set_uint bits n h k = unfold set_value in simp (parse_uint-format_uint n h, k)

set_bool : (b : Bool) → set_value (bool_value false) ((if b then 1 else 0) ∷ []) ≡ ok (bool_value b)
unfolding set_value
set_bool true = refl
set_bool false = refl

set_pointer :
    (z v : Value) (s : Bytes) → set_value z s ≡ ok v → set_value (nil_pointer z) s ≡ ok (pointer v)
set_pointer z v s e = unfold set_value in simp e

set_codable :
    (c : Codable)
    → decode (zero_codable c) (encode c) ≡ ok c
    → set_value (bytes_codable (zero_codable c)) (encode c) ≡ ok (bytes_codable c)
set_codable c e = unfold set_value in simp e

-- A content determines its value.
content_of : (s s' : Bytes) → ◌≡◌ {A = Result (Option Bytes)} (ok (some s)) (ok (some s')) → s ≡ s'
content_of s s' e = cc

tlv_content :
    (fs : Fields) (s : Bytes)
    → IsEncodable fs
    → marshal_tlv fs ≢ ok []
    → handle (tlv_codable fs) ≡ ok (some s)
    → s ≡ flat (emitted fs)
tlv_content fs s h ne e = content_of s (flat (emitted fs)) (
    sym e
    ∙ handle_tlv fs (flat (emitted fs)) (marshal-emitted fs h)
        (λ p. ne (marshal-emitted fs h ∙ ap ok p)))

mutual
  unfolding handle zero_value set_value

  set_value-handle :
      (v : Value) (s : Bytes)
      → HasContent v
      → handle v ≡ ok (some s)
      → set_value (zero_value v) s ≡ ok v
  set_value-handle _ s (of_string s') e = ap (λ r. ok (string_value r)) (content_of s s' (sym e))
  set_value-handle _ s (of_int bits i h k) e =
      rw (content_of s (format_int i) (sym e)) (set_int bits i h k)
  set_value-handle _ s (of_uint bits n h k) e =
      rw (content_of s (format_uint n) (sym e)) (set_uint bits n h k)
  set_value-handle _ s (of_bool b) e =
      rw (content_of s ((if b then 1 else 0) ∷ []) (sym e)) (set_bool b)
  set_value-handle _ s (of_slice s') e =
      ap (λ r. ok (slice_value (some r))) (content_of s s' (sym e))
  set_value-handle _ s (of_pointer {v = v} h) e =
      set_pointer (zero_value v) v s (set_value-handle v s h e)
  set_value-handle _ s (of_tlv {fs = fs} h ne) e =
      set_tlv (zero_fields fs) fs s (store_all nothing (emitted fs))
        (read_back fs s h (tlv_content fs s h ne e))
        (set_fields-emitted fs (store_all nothing (emitted fs)) h
          (Agrees-emitted fs nothing h (AllMissing-nothing fs)))
  set_value-handle _ s (of_codable c h) e =
      rw (content_of s (encode c) (sym e)) (set_codable c (decode-encode c h))

  set_fields-emitted :
      (fs : Fields) (m : Contents)
      → IsEncodable fs
      → Agrees m fs
      → set_fields (zero_fields fs) m ≡ ok fs
  set_fields-emitted _ m no_fields a = refl
  set_fields-emitted _ m (present {tag = tag} {v = v} {fs = fs} t e b short h k) a =
      let (s, hs) = handle-some v h in
      set_present tag (zero_value v) v (zero_fields fs) fs m t s e (a.0 t (some s) e hs)
        (set_value-handle v s h hs) (set_fields-emitted fs m k a.1)
  set_fields-emitted _ m (missing {tag = tag} {z = z} {fs = fs} t e b k) a =
      set_missing tag z (zero_fields fs) fs m t e (a.0 t none e refl)
        (set_fields-emitted fs m k a.1)

-- A struct is written, and read back field by field into a new struct of its type, if each field has
-- a tag of its own and is a nil pointer or has a content of at most 255 bytes: a string, an integer of
-- its type, a bool, a slice that is not nil, a nested struct of this kind that is not written as
-- nothing, a status with a constant, options that are not empty, with distinct keys that hold neither
-- a colon nor a comma, or a pointer to one of these.
pub tlv-unmarshal-marshal :
    (fs : Fields)
    → IsEncodable fs
    → (s : Bytes) × (marshal_tlv fs ≡ ok s) × (unmarshal_tlv (zero_fields fs) s ≡ ok fs)
tlv-unmarshal-marshal fs h = (
  flat (emitted fs),
  marshal-emitted fs h,
  unfold unmarshal_tlv in
      rw (read_back fs (flat (emitted fs)) h refl) (
        set_fields-emitted fs (store_all nothing (emitted fs)) h
          (Agrees-emitted fs nothing h (AllMissing-nothing fs))),
)
