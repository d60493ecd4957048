-- ===== src/Utils/Tlv/Entries.antt =====
-- Reading the entries of uma/utils/tlv_utils.go: the first loop of UnmarshalTLV.
use uma_go_sdk.Base.{
  ℕ, zero, suc, ◌%◌, ◌≤◌, ◌≡◌, ◌≢◌, refl, true, false, inl, inr, Bool-cases, List, [], ◌∷◌, ◌++◌,
  arith, Bytes, ltb, length, take, drop, length-append, length-drop, take-append, drop-append, All,
  ◌∙◌,
}
use uma_go_sdk.Go.Result.{ok, err, panic, incomplete_value}
use uma_go_sdk.Utils.Tlv.{Contents, store, slice_to, slice_from, read_entries}

abbrev pub Entry : Type 0
Entry = ℕ × Bytes

-- Entries as they stand in a message.
unfoldable pub flat : List Entry → Bytes
flat [] = []
flat ((t, content) ∷ es) = t ∷ (length content % 256) ∷ (content ++ flat es)

-- The map after every entry is stored: a later entry replaces an earlier one of its type.
unfoldable pub store_all : Contents → List Entry → Contents
store_all m [] = m
store_all m ((t, content) ∷ es) = store_all (store m t content) es

abbrev pub IsShort : Entry → Type 0
IsShort e = length e.1 ≤ 255

-- One round of the loop, where the content is all there and where it is not.
pub read_entries_fits :
    (fuel t l : ℕ) (s : Bytes) (m : Contents)
    → ltb (length s) l ≡ false
    → read_entries (suc fuel) (t ∷ l ∷ s) m ≡ read_entries fuel (drop l s) (store m t (take l s))
unfolding read_entries slice_to slice_from
read_entries_fits fuel t l s m e = rw e refl

pub read_entries_over :
    (fuel t l : ℕ) (s : Bytes) (m : Contents)
    → ltb (length s) l ≡ true
    → read_entries (suc fuel) (t ∷ l ∷ s) m ≡ err incomplete_value
unfolding read_entries
read_entries_over fuel t l s m e = rw e refl

read_one :
    (fuel t l : ℕ) (content s : Bytes) (m : Contents)
    → l ≡ length content
    → read_entries (suc fuel) (t ∷ l ∷ (content ++ s)) m ≡ read_entries fuel s (store m t content)
read_one fuel t l content s m e =
    read_entries_fits fuel t l (content ++ s) m
      (not_ltb (length (content ++ s)) l (omega (arith, length-append content s)))
    ∙ rw (e, take-append content s, drop-append content s) refl
  where
    not_ltb : (a b : ℕ) → b ≤ a → ltb a b ≡ false
    not_ltb a b h = ground arith

-- Entries with contents of at most 255 bytes are read as what they are.
pub read-flat :
    (fuel : ℕ) (es : List Entry) (m : Contents)
    → length (flat es) ≤ fuel
    → All IsShort es
    → read_entries fuel (flat es) m ≡ ok (store_all m es)
unfolding flat store_all
read-flat fuel [] m h short = unfold read_entries in refl
read-flat zero ((t, content) ∷ es) m h short = absurd (omega arith)
read-flat (suc fuel) ((t, content) ∷ es) m h short =
    read_one fuel t (length content % 256) content (flat es) m (omega arith)
    ∙ read-flat fuel es (store m t content) (omega (arith, length-append content (flat es))) short.1

-- Fuel of the length of the input never runs out, and no slice is out of range, whatever the input.
pub read_entries-ne-panic :
    (fuel : ℕ) (s : Bytes) (m : Contents) → length s ≤ fuel → read_entries fuel s m ≢ panic
read_entries-ne-panic fuel [] m h = unfold read_entries in λ e. cc
read_entries-ne-panic zero (t ∷ s) m h = absurd (omega arith)
read_entries-ne-panic (suc fuel) (t ∷ []) m h = unfold read_entries in λ e. cc
read_entries-ne-panic (suc fuel) (t ∷ l ∷ s) m h = elim (Bool-cases (ltb (length s) l)) [
  | inl over ↦ λ e. cc (read_entries_over fuel t l s m over)
  | inr fits ↦ rw (read_entries_fits fuel t l s m fits) (
      read_entries-ne-panic fuel (drop l s) (store m t (take l s)) (omega (arith, length-drop l s)))
]
