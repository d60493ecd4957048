-- ===== src/Go/Sort.antt =====
-- `sort.Strings`, as an insertion sort: the result does not depend on the method.
use mathlib.Core.List.{Perm, Permᴰ}
use mathlib.Core.Logic.{∥∥₁_elim}
use mathlib.Core.List
use native.Mathlib.Nat.{ℕ_set}
use uma_go_sdk.Base.{
  List, [], ◌∷◌, ◌≡◌, refl, true, false, arith, Bytes, le_bytes, if◌then◌else◌, ◌∙◌,
}

pub le_bytes_total : (s t : Bytes) → le_bytes s t ≡ false → le_bytes t s ≡ true
unfolding le_bytes
le_bytes_total [] t h = cc
le_bytes_total (x ∷ s) [] h = refl
le_bytes_total (x ∷ s) (y ∷ t) h = ground (arith, le_bytes_total s t)

le_bytes_antisymm : (s t : Bytes) → le_bytes s t ≡ true → le_bytes t s ≡ true → s ≡ t
unfolding le_bytes
le_bytes_antisymm [] [] h k = refl
le_bytes_antisymm [] (y ∷ t) h k = cc
le_bytes_antisymm (x ∷ s) [] h k = cc
le_bytes_antisymm (x ∷ s) (y ∷ t) h k = ground (arith, le_bytes_antisymm s t)

le_bytes_trans : (s t u : Bytes) → le_bytes s t ≡ true → le_bytes t u ≡ true → le_bytes s u ≡ true
unfolding le_bytes
le_bytes_trans [] t u h k = refl
le_bytes_trans (x ∷ s) [] u h k = cc
le_bytes_trans (x ∷ s) (y ∷ t) [] h k = cc
le_bytes_trans (x ∷ s) (y ∷ t) (z ∷ u) h k = ground (arith, le_bytes_trans s t u)

unfoldable pub insert_sorted : Bytes → List Bytes → List Bytes
insert_sorted s [] = s ∷ []
insert_sorted s (t ∷ ts) =
    let rest = insert_sorted s ts in if le_bytes s t then s ∷ t ∷ ts else t ∷ rest

unfoldable pub sort_strings : List Bytes → List Bytes
unfolding insert_sorted
sort_strings [] = []
sort_strings (s ∷ ss) = insert_sorted s (sort_strings ss)

insert_sorted_comm :
    (s t : Bytes) (us : List Bytes)
    → insert_sorted s (insert_sorted t us) ≡ insert_sorted t (insert_sorted s us)
unfolding insert_sorted
insert_sorted_comm s t [] =
    ground (arith, le_bytes_total s t, le_bytes_total t s, le_bytes_antisymm s t)
insert_sorted_comm s t (u ∷ us) = ground (
  arith,
  insert_sorted_comm s t us,
  le_bytes_total s t,
  le_bytes_total t s,
  le_bytes_antisymm s t,
  le_bytes_total t u,
  le_bytes_total s u,
  le_bytes_trans s t u,
  le_bytes_trans t s u,
)

sort-permᴰ : (ss ts : List Bytes) → Permᴰ ss ts → sort_strings ss ≡ sort_strings ts
unfolding sort_strings
sort-permᴰ _ _ Permᴰ.nil = refl
sort-permᴰ (a ∷ ss) (b ∷ ts) (Permᴰ.cons e p) = cc (e, sort-permᴰ ss ts p)
sort-permᴰ _ _ (Permᴰ.swap {a = a} {b = b} {l = l} e e') =
    insert_sorted_comm a b (sort_strings l) ∙ cc
sort-permᴰ _ _ (Permᴰ.trans {l₁ = l₁} {l₂ = l₂} {l₃ = l₃} p q) =
    sort-permᴰ l₁ l₂ p ∙ sort-permᴰ l₂ l₃ q

-- The order of the strings before the sort makes no difference.
pub sort-perm : (ss ts : List Bytes) → Perm ss ts → sort_strings ss ≡ sort_strings ts
sort-perm ss ts p = ∥∥₁_elim p (List.is_set (List.is_set ℕ_set) _ _) (sort-permᴰ ss ts)
