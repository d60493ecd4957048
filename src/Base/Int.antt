-- ===== src/Base/Int.antt =====
-- Signed integers over the native numbers: Go's `int` and `int64`, whose range is a hypothesis.
use Prim.Native.Nat.{ℕ, suc, ◌+◌, ◌-◌, ◌*◌, ◌%◌, ◌^◌, ◌≤◌, ◌<◌}
use mathlib.Core.Path.{◌≡◌}
use mathlib.Core.Logic.{◌↔◌}
use mathlib.Core.Bool.{Bool, true}
use native.Mathlib.Omega.{arith}
use uma_go_sdk.Base.Tests.{ltb, leb, if◌then◌else◌, ◌==◌}

-- `negsuc n` is -(n + 1).
pub data ℤ : Type 0 where
  pos : ℕ → ℤ
  negsuc : ℕ → ℤ

abbrev pub pos_part : ℤ → ℕ
pos_part (pos n) = n
pos_part (negsuc n) = 0

abbrev pub neg_part : ℤ → ℕ
neg_part (pos n) = 0
neg_part (negsuc n) = suc n

-- a - b, as an integer.
abbrev pub sub_ℕ : ℕ → ℕ → ℤ
sub_ℕ a b = if leb b a then pos (a - b) else negsuc (b - a - 1)

infixl 65 ◌+ℤ◌ ◌-ℤ◌
infixl 70 ◌*ℤ◌
infix 50 ◌≤ℤ◌ ◌<ℤ◌
unfoldable pub ◌+ℤ◌ : ℤ → ℤ → ℤ
a +ℤ b = sub_ℕ (pos_part a + pos_part b) (neg_part a + neg_part b)

unfoldable pub ◌-ℤ◌ : ℤ → ℤ → ℤ
a -ℤ b = sub_ℕ (pos_part a + neg_part b) (neg_part a + pos_part b)

unfoldable pub ◌*ℤ◌ : ℤ → ℤ → ℤ
a *ℤ b =
    sub_ℕ (pos_part a * pos_part b + neg_part a * neg_part b)
      (pos_part a * neg_part b + neg_part a * pos_part b)

abbrev pub ◌≤ℤ◌ : ℤ → ℤ → Type 0
a ≤ℤ b = pos_part a + neg_part b ≤ pos_part b + neg_part a

abbrev pub ◌<ℤ◌ : ℤ → ℤ → Type 0
a <ℤ b = pos_part a + neg_part b < pos_part b + neg_part a

abbrev pub ltb_ℤ : ℤ → ℤ → Bool
ltb_ℤ a b = ltb (pos_part a + neg_part b) (pos_part b + neg_part a)

abbrev pub eqb_ℤ : ℤ → ℤ → Bool
eqb_ℤ a b = (pos_part a + neg_part b) == (pos_part b + neg_part a)

pub eqb_ℤ_iff : (a b : ℤ) → (eqb_ℤ a b ≡ true) ↔ (a ≡ b)
eqb_ℤ_iff a b = ground arith

-- The range of `int64`, and of `int` on a 64-bit platform.
abbrev pub min_i64 : ℤ
min_i64 = negsuc (2 ^ 63 - 1)

abbrev pub max_i64 : ℤ
max_i64 = pos (2 ^ 63 - 1)

abbrev pub IsInt64 : ℤ → Type 0
IsInt64 a = (min_i64 ≤ℤ a) × (a ≤ℤ max_i64)

-- The value of the low `bits` bits of an integer, in two's complement.
unfoldable pub wrap_int : ℕ → ℤ → ℤ
wrap_int bits (pos n) =
    let r = n % 2 ^ bits in if ltb r (2 ^ (bits - 1)) then pos r else negsuc (2 ^ bits - 1 - r)
wrap_int bits (negsuc n) =
    let r = n % 2 ^ bits in if ltb r (2 ^ (bits - 1)) then negsuc r else pos (2 ^ bits - 1 - r)

abbrev pub wrap_i64 : ℤ → ℤ
wrap_i64 = wrap_int 64

pub wrap_i64-IsInt64 : (a : ℤ) → IsInt64 (wrap_i64 a)
unfolding wrap_int
wrap_i64-IsInt64 (pos n) = ground arith
wrap_i64-IsInt64 (negsuc n) = ground arith

-- Within the range nothing is lost.
pub wrap_i64_id : (a : ℤ) → IsInt64 a → wrap_i64 a ≡ a
unfolding wrap_int
wrap_i64_id (pos n) h = ground arith
wrap_i64_id (negsuc n) h = ground arith

-- What is added with wrap-around is taken off again with wrap-around.
pub wrap_i64-undo : (a b : ℤ) → IsInt64 a → IsInt64 b → wrap_i64 (wrap_i64 (a +ℤ b) -ℤ b) ≡ a
unfolding wrap_int ◌+ℤ◌ ◌-ℤ◌
wrap_i64-undo (pos a) (pos b) h k = ground arith
wrap_i64-undo (pos a) (negsuc b) h k = ground arith
wrap_i64-undo (negsuc a) (pos b) h k = ground arith
wrap_i64-undo (negsuc a) (negsuc b) h k = ground arith
