-- ===== src/Protocol/Invoice/FieldLaws.antt =====
-- One field of an invoice (uma/protocol/invoice.go) on top of the fields behind it.
use uma_go_sdk.Base.{
  ℕ, ◌≤◌, ◌<◌, ◌≡◌, ◌≢◌, Bool, true, ◌&&◌, not, Option, none, some, arith, Bytes, length, ◌==◌,
}
use uma_go_sdk.Base.Int.{ℤ, wrap_i64_id, IsInt64}
use uma_go_sdk.Go.Result.{Result, ok}
use uma_go_sdk.Go.Strconv.{max_u64}
use uma_go_sdk.Go.Strconv.RoundTrip.{format_uint-length, format_int-length}
use uma_go_sdk.Protocol.KycStatus.{KycStatus, known}
use uma_go_sdk.Protocol.KycStatus
use uma_go_sdk.Protocol.CounterParty.{CounterPartyDataOptions}
use uma_go_sdk.Protocol.CounterParty
use uma_go_sdk.Protocol.CounterParty.Sorted.{sort_entries}
use uma_go_sdk.Protocol.CounterParty.Canonical.{IsWritten}
use uma_go_sdk.Utils.Tlv.{
  Value, Fields, string_value, int_value, uint_value, bool_value, slice_value, pointer,
  bytes_codable, end, field, tag_byte, handle,
}
use uma_go_sdk.Utils.Tlv.Coders.{Codable, data_options, encode}
use uma_go_sdk.Utils.Tlv.Encodable.{
  Absent, HasContent, IsEncodable, of_string, of_int, of_uint, of_bool, of_slice, of_pointer,
  of_codable, present, missing, IsShortContent,
}
use uma_go_sdk.Protocol.Invoice.{pointer_to}

-- A tag byte that no field has is found by comparing the bytes.
differs : ℕ → Result (Option ℕ) → Bool
differs t (ok (some u)) = not (u == t)
differs t _ = true

unfoldable pub absent : ℕ → Fields → Bool
unfolding differs
absent t end = true
absent t (field tag v fs) = differs t (tag_byte tag) && absent t fs

differs-ne : (t : ℕ) (r : Result (Option ℕ)) → differs t r ≡ true → r ≢ ok (some t)
unfolding differs
differs-ne t r h e = ground arith

absent→Absent : (t : ℕ) (fs : Fields) → absent t fs ≡ true → Absent t fs
unfolding absent
absent→Absent t end h = tt
absent→Absent t (field tag v fs) h =
    (differs-ne t (tag_byte tag) (ground arith), absent→Absent t fs (ground arith))

abbrev pub WhenSome : {A : Type 0} → (A → Type 0) → Option A → Type 0
WhenSome P none = Unit
WhenSome P (some a) = P a

-- Options that can be written, in the order in which they are, with bytes that fit.
abbrev pub HasShortText : CounterPartyDataOptions → Type 0
HasShortText c = IsWritten c × (sort_entries c ≡ c) × (length (CounterParty.marshal_bytes c) ≤ 255)

-- One field on top of others.
module _ (tag : Bytes) (fs : Fields) (t : ℕ) (e : tag_byte tag ≡ ok (some t))
    (a : absent t fs ≡ true) (rest : IsEncodable fs) where
  pub content_field :
      (v : Value) → HasContent v → IsShortContent (handle v) → IsEncodable (field tag v fs)
  content_field v h short = present {v = v} t e (absent→Absent t fs a) short h rest

  pub string_field : (s : Bytes) → length s ≤ 255 → IsEncodable (field tag (string_value s) fs)
  unfolding handle
  string_field s h = content_field (string_value s) (of_string s) h

  pub uint64_field : (n : ℕ) → n ≤ max_u64 → IsEncodable (field tag (uint_value 64 n) fs)
  unfolding handle
  uint64_field n h =
      content_field (uint_value 64 n) (of_uint 64 n h (omega arith))
        (omega (arith, format_uint-length n h))

  pub uint8_field : (n : ℕ) → n < 256 → IsEncodable (field tag (uint_value 8 n) fs)
  unfolding handle
  uint8_field n h =
      content_field (uint_value 8 n) (of_uint 8 n (omega arith) (omega arith))
        (omega (arith, format_uint-length n))

  pub bool_field : (b : Bool) → IsEncodable (field tag (bool_value b) fs)
  unfolding handle
  bool_field b = content_field (bool_value b) (of_bool b) (omega arith)

  pub pointer_field :
      {A : Type 0} (z : Value) (f : A → Value) (o : Option A)
      → WhenSome (λ x. HasContent (f x) × IsShortContent (handle (f x))) o
      → IsEncodable (field tag (pointer_to z f o) fs)
  unfolding pointer_to handle
  pointer_field z f none h = missing {z = z} t e (absent→Absent t fs a) rest
  pointer_field z f (some x) h = content_field (pointer (f x)) (of_pointer h.0) h.1

pub WhenSome-map :
    {A : Type 0} {P Q : A → Type 0} (o : Option A)
    → ((x : A) → P x → Q x)
    → WhenSome P o
    → WhenSome Q o
WhenSome-map none f h = tt
WhenSome-map (some x) f h = f x h

-- The values of pointer fields.
pub int_content :
    (i : ℤ) → IsInt64 i → HasContent (int_value 64 i) × IsShortContent (handle (int_value 64 i))
unfolding handle
int_content i h = (of_int 64 i h (wrap_i64_id i h), omega (arith, format_int-length i h))

pub uint_content :
    (n : ℕ) → n ≤ max_u64 → HasContent (uint_value 64 n) × IsShortContent (handle (uint_value 64 n))
unfolding handle
uint_content n h = (of_uint 64 n h (omega arith), omega (arith, format_uint-length n h))

pub text_content :
    (s : Bytes)
    → length s ≤ 255
    → HasContent (string_value s) × IsShortContent (handle (string_value s))
unfolding handle
text_content s h = (of_string s, h)

pub options_content :
    (c : CounterPartyDataOptions)
    → HasShortText c
    → HasContent (bytes_codable (data_options c))
      × IsShortContent (handle (bytes_codable (data_options c)))
unfolding handle encode
options_content c (w, sorted, short) = (of_codable (data_options c) (w, sorted), short)

kyc_length : (k : KycStatus) → length (KycStatus.marshal_bytes k) ≤ 255
unfolding KycStatus.marshal_bytes
kyc_length KycStatus.unknown = omega arith
kyc_length KycStatus.not_verified = omega arith
kyc_length KycStatus.pending = omega arith
kyc_length KycStatus.verified = omega arith
kyc_length (KycStatus.other n) = omega arith

pub kyc_content :
    (k : KycStatus)
    → known k ≡ k
    → HasContent (bytes_codable (Codable.kyc_status k))
      × IsShortContent (handle (bytes_codable (Codable.kyc_status k)))
unfolding handle encode KycStatus.marshal_bytes
kyc_content k h = (of_codable (Codable.kyc_status k) h, kyc_length k)

pub slice_content :
    (o : Option Bytes)
    → (s : Bytes) × (o ≡ some s) × (length s ≤ 255)
    → HasContent (slice_value o) × IsShortContent (handle (slice_value o))
unfolding handle
slice_content o (s, e, h) = rw e (of_slice s, h)
