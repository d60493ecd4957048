-- ===== src/Utils/Tlv/Long.antt =====
-- The length of a content has one byte in uma/utils/tlv_utils.go: `byte(len(content))`.
use uma_go_sdk.Base.{
  ℕ, zero, suc, ◌≤◌, ◌≡◌, ◌≢◌, none, some, [], ◌∷◌, arith, Bytes, IsByte, length, take, drop, All,
  ltb, Bool-cases, Option-cases, inl, inr, ◌%◌, ◌++◌, sym, ◌∙◌,
}
use uma_go_sdk.Go.Result.{ok, err, ◌>>=◌, >>=-ok, missing_tlv}
use uma_go_sdk.Utils.Tlv.Entries.{read_entries_fits, read_entries_over}
use uma_go_sdk.Utils.Tlv.{
  Fields, string_value, field, tag_byte, marshal_tlv, entry, Contents, store, nothing, read_entries,
  set_fields, set_value, unmarshal_tlv,
}

abbrev IsShortMap : Contents → Type 0
IsShortMap m = (t : ℕ) (s : Bytes) → m t ≡ some s → length s ≤ 255

length-take_le : (n : ℕ) (s : Bytes) → length (take n s) ≤ n
length-take_le zero s = omega arith
length-take_le (suc n) [] = omega arith
length-take_le (suc n) (c ∷ s) = omega (arith, length-take_le n s)

drop-IsByte : (n : ℕ) (s : Bytes) → All IsByte s → All IsByte (drop n s)
drop-IsByte zero s h = h
drop-IsByte (suc n) [] h = tt
drop-IsByte (suc n) (c ∷ s) h = drop-IsByte n s h.1

store-IsShortMap :
    (m : Contents) (t : ℕ) (s : Bytes) → IsShortMap m → length s ≤ 255 → IsShortMap (store m t s)
store-IsShortMap m t s h short u r e = ground (arith, h u r)

-- Whatever a message holds, a content that is read from it has at most 255 bytes.
pub read_entries-short :
    (fuel : ℕ) (s : Bytes) (m m' : Contents)
    → All IsByte s
    → IsShortMap m
    → read_entries fuel s m ≡ ok m'
    → IsShortMap m'
unfolding read_entries
read_entries-short fuel [] m m' b h e = λ u r p. h u r (cc)
read_entries-short zero (t ∷ s) m m' b h e = cc
read_entries-short (suc fuel) (t ∷ []) m m' b h e = cc
read_entries-short (suc fuel) (t ∷ l ∷ s) m m' b h e = elim (Bool-cases (ltb (length s) l)) [
  | inl over ↦ cc (read_entries_over fuel t l s m over, e)
  | inr fits ↦
      read_entries-short fuel (drop l s) (store m t (take l s)) m' (drop-IsByte l s b.1.1)
        (store-IsShortMap m t (take l s) h (omega (arith, length-take_le l s)))
        (rw (read_entries_fits fuel t l s m fits) at e)
]

set_string :
    (tag s₀ c : Bytes) (fs₀ : Fields) (t : ℕ) (m : Contents)
    → tag_byte tag ≡ ok (some t)
    → m t ≡ some c
    → set_fields (field tag (string_value s₀) fs₀) m
      ≡ (set_fields fs₀ m >>= λ fs'. ok (field tag (string_value c) fs'))
set_string tag s₀ c fs₀ t m e q = unfold set_fields set_value in simp (e, q)

set_string_missing :
    (tag s₀ : Bytes) (fs₀ : Fields) (t : ℕ) (m : Contents)
    → tag_byte tag ≡ ok (some t)
    → m t ≡ none
    → set_fields (field tag (string_value s₀) fs₀) m ≡ err missing_tlv
set_string_missing tag s₀ fs₀ t m e q = unfold set_fields set_value in simp (e, q)

set_fields-short :
    (tag s₀ s : Bytes) (fs₀ fs : Fields) (t : ℕ) (m : Contents)
    → tag_byte tag ≡ ok (some t)
    → IsShortMap m
    → set_fields (field tag (string_value s₀) fs₀) m ≡ ok (field tag (string_value s) fs)
    → length s ≤ 255
set_fields-short tag s₀ s fs₀ fs t m e h r = elim (Option-cases (m t)) [
  | inl q ↦ cc (set_string_missing tag s₀ fs₀ t m e q)
  | inr (c, q) ↦
      let (fs', _, same) =
        >>=-ok (set_fields fs₀ m) (λ fs'. ok (field tag (string_value c) fs'))
          {result = field tag (string_value s) fs} (sym (set_string tag s₀ c fs₀ t m e q) ∙ r) in
      let p : s ≡ c = cc in rw p (h t c q)
]

-- MarshalTLV writes a string of more than 255 bytes with no error, and no message at all is read as a
-- struct with such a string: what was written is lost.
pub long_string_lost :
    (tag s₀ s : Bytes) (fs₀ fs : Fields) (t : ℕ) (rest message : Bytes)
    → tag_byte tag ≡ ok (some t)
    → 256 ≤ length s
    → marshal_tlv fs ≡ ok rest
    → All IsByte message
    → (marshal_tlv (field tag (string_value s) fs) ≡ ok (t ∷ (length s % 256) ∷ (s ++ rest)))
      × (unmarshal_tlv (field tag (string_value s₀) fs₀) message
          ≢ ok (field tag (string_value s) fs))
long_string_lost tag s₀ s fs₀ fs t rest message e long k b = (
  unfold marshal_tlv entry in simp (e, k),
  λ r.
      let (m, read, set) =
        >>=-ok (read_entries (length message) message nothing)
          (λ m. set_fields (field tag (string_value s₀) fs₀) m)
          {result = field tag (string_value s) fs} (unfold unmarshal_tlv in r) in
      absurd (
        omega (
          arith,
          set_fields-short tag s₀ s fs₀ fs t m e
              (read_entries-short (length message) message nothing m b (λ u c p. cc) read) set,
        )),
)
