-- ===== src/Utils/Tlv/Encodable.antt =====
-- Which structs uma/utils/tlv_utils.go can write so that they can be read back, and what it writes.
use uma_go_sdk.Base.{
  ℕ, ◌%◌, ◌^◌, ◌≤◌, ◌≡◌, ◌≢◌, refl, Bool, Option, none, some, List, [], ◌∷◌, ◌++◌, Bytes, length,
  if◌then◌else◌, sym, ap, ◌∙◌,
}
use uma_go_sdk.Base.Int.{ℤ, wrap_int, IsInt64}
use uma_go_sdk.Go.Result.{Result, ok}
use uma_go_sdk.Go.Strconv.{max_u64, format_int, format_uint}
use uma_go_sdk.Utils.Tlv.{
  Value, Fields, string_value, int_value, uint_value, bool_value, slice_value, nil_pointer, pointer,
  tlv_codable, bytes_codable, end, field, tag_byte, nil_if_empty, entry, handle, marshal_tlv,
}
use uma_go_sdk.Utils.Tlv.Coders.{Codable, encode, decode, kyc_status, data_options}
use uma_go_sdk.Utils.Tlv.Entries.{Entry, flat}
use uma_go_sdk.Protocol.KycStatus
use uma_go_sdk.Protocol.KycStatus.{known}
use uma_go_sdk.Protocol.CounterParty.Sorted.{sort_entries}
use uma_go_sdk.Protocol.CounterParty.RoundTrip.{options-unmarshal-marshal}
use uma_go_sdk.Protocol.CounterParty.Canonical.{IsWritten}

-- The zero value of a codable's type.
abbrev pub zero_codable : Codable → Codable
zero_codable (kyc_status k) = kyc_status KycStatus.unknown
zero_codable (data_options c) = data_options []

-- A status with a constant, or options that can be written. A Go map has no order: its entries are
-- taken in the order in which they are written.
abbrev pub IsCodable : Codable → Type 0
IsCodable (kyc_status k) = known k ≡ k
IsCodable (data_options c) = IsWritten c × (sort_entries c ≡ c)

-- What MarshalBytes writes of such a value is read back by UnmarshalBytes.
pub decode-encode : (c : Codable) → IsCodable c → decode (zero_codable c) (encode c) ≡ ok c
unfolding decode encode
decode-encode (kyc_status k) h = ap (λ x. ok (kyc_status x)) (KycStatus.kyc-unmarshal-marshal k ∙ h)
decode-encode (data_options c) ((ne, n, plain), sorted) =
    simp ((options-unmarshal-marshal c ne n plain).0, sorted)

-- No field has the tag byte `t`.
abbrev pub Absent : ℕ → Fields → Type 0
Absent t end = Unit
Absent t (field tag v fs) = (tag_byte tag ≢ ok (some t)) × Absent t fs

-- A content that its one length byte can tell.
abbrev pub IsShortContent : Result (Option Bytes) → Type 0
IsShortContent (ok (some s)) = length s ≤ 255
IsShortContent _ = Unit

mutual
  -- A value that is written, and not left out as nil.
  pub data HasContent : Value → Type 0 where
    of_string : (s : Bytes) → HasContent (string_value s)
    of_int : (bits : ℕ) (i : ℤ) → IsInt64 i → wrap_int bits i ≡ i → HasContent (int_value bits i)
    of_uint : (bits n : ℕ) → n ≤ max_u64 → n % 2 ^ bits ≡ n → HasContent (uint_value bits n)
    of_bool : (b : Bool) → HasContent (bool_value b)
    of_slice : (s : Bytes) → HasContent (slice_value (some s))
    of_pointer : {v : Value} → HasContent v → HasContent (pointer v)
    of_tlv : {fs : Fields} → IsEncodable fs → marshal_tlv fs ≢ ok [] → HasContent (tlv_codable fs)
    of_codable : (c : Codable) → IsCodable c → HasContent (bytes_codable c)

  -- Every field has a tag of its own; its value has content of at most 255 bytes, or is nil.
  pub data IsEncodable : Fields → Type 0 where
    no_fields : IsEncodable end
    present :
        {tag : Bytes} {v : Value} {fs : Fields} (t : ℕ)
        → tag_byte tag ≡ ok (some t)
        → Absent t fs
        → IsShortContent (handle v)
        → HasContent v
        → IsEncodable fs
        → IsEncodable (field tag v fs)
    missing :
        {tag : Bytes} {z : Value} {fs : Fields} (t : ℕ)
        → tag_byte tag ≡ ok (some t)
        → Absent t fs
        → IsEncodable fs
        → IsEncodable (field tag (nil_pointer z) fs)

pub emit : Result (Option ℕ) → Result (Option Bytes) → List Entry → List Entry
emit (ok (some t)) (ok (some s)) es = (t, s) ∷ es
emit _ _ es = es

-- The entries that a struct is written as.
unfoldable pub emitted : Fields → List Entry
unfolding emit
emitted end = []
emitted (field tag v fs) = emit (tag_byte tag) (handle v) (emitted fs)

nil_if_empty-some : (s : Bytes) → s ≢ [] → nil_if_empty s ≡ some s
unfolding nil_if_empty
nil_if_empty-some [] h = absurd (h refl)
nil_if_empty-some (c ∷ s) h = refl

marshal_field :
    (tag : Bytes) (v : Value) (fs : Fields) (t : ℕ) (content : Option Bytes) (rest : Bytes)
    → tag_byte tag ≡ ok (some t)
    → handle v ≡ ok content
    → marshal_tlv fs ≡ ok rest
    → marshal_tlv (field tag v fs) ≡ ok (entry (some t) content ++ rest)
marshal_field tag v fs t content rest e h k = unfold marshal_tlv in simp (e, h, k)

pub emitted_field :
    (tag : Bytes) (v : Value) (fs : Fields) (t : ℕ) (s : Bytes)
    → tag_byte tag ≡ ok (some t)
    → handle v ≡ ok (some s)
    → emitted (field tag v fs) ≡ (t, s) ∷ emitted fs
emitted_field tag v fs t s e h = unfold emitted in simp (e, h)

pub handle_tlv :
    (fs : Fields) (s : Bytes)
    → marshal_tlv fs ≡ ok s
    → s ≢ []
    → handle (tlv_codable fs) ≡ ok (some s)
handle_tlv fs s e ne = unfold handle in simp (e, nil_if_empty-some s ne)

marshal_present :
    (tag : Bytes) (v : Value) (fs : Fields) (t : ℕ) (s : Bytes)
    → tag_byte tag ≡ ok (some t)
    → handle v ≡ ok (some s)
    → marshal_tlv fs ≡ ok (flat (emitted fs))
    → marshal_tlv (field tag v fs) ≡ ok (flat (emitted (field tag v fs)))
marshal_present tag v fs t s e h k =
    marshal_field tag v fs t (some s) (flat (emitted fs)) e h k
    ∙ unfold entry flat in ap (λ es. ok (flat es)) (sym (emitted_field tag v fs t s e h))

marshal_missing :
    (tag : Bytes) (z : Value) (fs : Fields) (t : ℕ)
    → tag_byte tag ≡ ok (some t)
    → marshal_tlv fs ≡ ok (flat (emitted fs))
    → marshal_tlv (field tag (nil_pointer z) fs)
      ≡ ok (flat (emitted (field tag (nil_pointer z) fs)))
marshal_missing tag z fs t e k =
    unfold handle entry emitted in
    marshal_field tag (nil_pointer z) fs t none (flat (emitted fs)) e refl k ∙ simp e

marshal_end : marshal_tlv end ≡ ok (flat (emitted end))
unfolding marshal_tlv emitted flat
marshal_end = refl

pub emitted_missing :
    (tag : Bytes) (z : Value) (fs : Fields) (t : ℕ)
    → tag_byte tag ≡ ok (some t)
    → emitted (field tag (nil_pointer z) fs) ≡ emitted fs
emitted_missing tag z fs t e = unfold emitted handle in simp e

mutual
  unfolding handle

  pub handle-some : (v : Value) → HasContent v → (s : Bytes) × (handle v ≡ ok (some s))
  handle-some _ (of_string s) = (s, refl)
  handle-some _ (of_int bits i h k) = (format_int i, refl)
  handle-some _ (of_uint bits n h k) = (format_uint n, refl)
  handle-some _ (of_bool b) = ((if b then 1 else 0) ∷ [], refl)
  handle-some _ (of_slice s) = (s, refl)
  handle-some _ (of_pointer {v = v} h) = handle-some v h
  handle-some _ (of_tlv {fs = fs} h ne) = (
    flat (emitted fs),
    handle_tlv fs (flat (emitted fs)) (marshal-emitted fs h)
        (λ e. ne (marshal-emitted fs h ∙ ap ok e)),
  )
  handle-some _ (of_codable c h) = (encode c, refl)

  -- What MarshalTLV writes is the entries of the struct, one after the other.
  pub marshal-emitted : (fs : Fields) → IsEncodable fs → marshal_tlv fs ≡ ok (flat (emitted fs))
  marshal-emitted _ no_fields = marshal_end
  marshal-emitted _ (present {tag = tag} {v = v} {fs = fs} t e a short h k) =
      let (s, hs) = handle-some v h in marshal_present tag v fs t s e hs (marshal-emitted fs k)
  marshal-emitted _ (missing {tag = tag} {z = z} {fs = fs} t e a k) =
      marshal_missing tag z fs t e (marshal-emitted fs k)
