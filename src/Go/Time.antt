-- ===== src/Go/Time.antt =====
-- `time.Time` as the standard library keeps it: seconds since the year 1 in 64 bits, and nanoseconds.
-- The monotonic clock reading, which only `time.Now` adds, is left out.
use uma_go_sdk.Base.{ℕ, Bool, ◌&&◌, ◌||◌, ◌≡◌, true, false, arith, ltb}
use uma_go_sdk.Base.Int.{ℤ, pos, negsuc, ◌+ℤ◌, ◌-ℤ◌, ltb_ℤ, eqb_ℤ, IsInt64, wrap_i64, wrap_int}

pub record Time : Type 0 where
  pub ext : ℤ
  pub nsec : ℕ

-- The Unix epoch in seconds since the year 1.
abbrev unix_to_internal : ℤ
unix_to_internal = pos 62135596800

-- time.Unix(s, 0)
unfoldable pub unix : ℤ → Time
unix s = record { ext = wrap_i64 (s +ℤ unix_to_internal); nsec = 0 }

-- t.Unix()
unfoldable pub unix_seconds : Time → ℤ
unix_seconds t = wrap_i64 (t.ext -ℤ unix_to_internal)

-- t.Before(u)
unfoldable pub before : Time → Time → Bool
before t u = ltb_ℤ t.ext u.ext || (eqb_ℤ t.ext u.ext && ltb t.nsec u.nsec)

pub unix_seconds-unix : (s : ℤ) → IsInt64 s → unix_seconds (unix s) ≡ s
unfolding unix_seconds unix wrap_int ◌+ℤ◌ ◌-ℤ◌
unix_seconds-unix (pos n) h = ground arith
unix_seconds-unix (negsuc n) h = ground arith

-- What is before `t` is before everything that is not before `t`.
pub before_trans : (s t u : Time) → before s t ≡ true → before u t ≡ false → before s u ≡ true
unfolding before
before_trans s t u h k = ground arith

pub before_irrefl : (t : Time) → before t t ≡ false
unfolding before
before_irrefl t = ground arith

pub before_asymm : (s t : Time) → before s t ≡ true → before t s ≡ false
unfolding before
before_asymm s t h = ground arith
