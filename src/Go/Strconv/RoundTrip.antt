-- ===== src/Go/Strconv/RoundTrip.antt =====
-- What is written in decimal is read back, and holds digits only.
use native.Mathlib.Nat.{pow-suc}
use uma_go_sdk.Base.{
  ℕ, zero, suc, ◌+◌, ◌/◌, ◌%◌, ◌≤◌, ◌<◌, ◌≡◌, ◌≢◌, refl, sym, Lacks, [], ◌∷◌, some, arith, Bytes,
  All, Bool-cases, inl, inr, ◌==◌, ◌^◌, length,
}
use uma_go_sdk.Base.Int.{ℤ, pos, negsuc, IsInt64}
use uma_go_sdk.Go.Strconv.{
  max_u64, digits, format_uint, format_int, scan, parse_uint, signed, parse_int,
}

abbrev pub IsDigit : ℕ → Type 0
IsDigit c = (b'0' ≤ c) × (c ≤ b'9')

digits-IsDigit : (f n : ℕ) (out : Bytes) → All IsDigit out → All IsDigit (digits f n out)
unfolding digits
digits-IsDigit zero n out h = h
digits-IsDigit (suc f) n out h = elim (Bool-cases (n == 0)) [
  | inl e ↦ rw e h
  | inr e ↦ rw e (digits-IsDigit f (n / 10) _ (ground arith, h))
]

pub format_uint-IsDigit : (n : ℕ) → All IsDigit (format_uint n)
unfolding format_uint
format_uint-IsDigit n = elim (Bool-cases (n == 0)) [
  | inl e ↦ rw e (omega arith)
  | inr e ↦ rw e (digits-IsDigit n (n / 10) _ (ground arith, tt))
]

digits_cons : (f n c : ℕ) (out : Bytes) → (d : ℕ) × (t : Bytes) × (digits f n (c ∷ out) ≡ d ∷ t)
unfolding digits
digits_cons zero n c out = (c, out, refl)
digits_cons (suc f) n c out = elim (Bool-cases (n == 0)) [
  | inl e ↦ (c, out, rw e)
  | inr e ↦ rw e (digits_cons f (n / 10) (b'0' + n % 10) (c ∷ out))
]

pub format_uint_cons : (n : ℕ) → (d : ℕ) × (t : Bytes) × (format_uint n ≡ d ∷ t)
unfolding format_uint digits
format_uint_cons n = elim (Bool-cases (n == 0)) [
  | inl e ↦ (b'0', [], rw e)
  | inr e ↦ rw e (digits_cons n (n / 10) (b'0' + n % 10) [])
]

last_digit :
    (rest : Bytes) (k : ℕ) → k ≤ max_u64 → scan rest k ≡ scan ((b'0' + k % 10) ∷ rest) (k / 10)
unfolding scan
last_digit rest k small = ground arith

scan-digits : (f n : ℕ) (out : Bytes) → n < f → n ≤ max_u64 → scan (digits f n out) 0 ≡ scan out n
unfolding digits
scan-digits zero n out h fits = absurd (omega arith)
scan-digits (suc f) n out h fits =
    ground (arith, scan-digits f (n / 10) ((b'0' + n % 10) ∷ out), last_digit out n fits)

parse_uint-scan : (c : ℕ) (s t : Bytes) → s ≡ c ∷ t → parse_uint s ≡ scan s 0
unfolding parse_uint
parse_uint-scan c s t e = rw e

pub parse_uint-format_uint : (n : ℕ) → n ≤ max_u64 → parse_uint (format_uint n) ≡ some n
parse_uint-format_uint n h =
    let (d, t, e) = format_uint_cons n in
    rw (parse_uint-scan d (format_uint n) t e)
      (unfold format_uint scan in ground (arith, scan-digits (suc n) n []))

signed_digit :
    (d : ℕ) (t : Bytes) → IsDigit d → parse_int (d ∷ t) ≡ signed b'+' (parse_uint (d ∷ t))
unfolding parse_int
signed_digit d t h = ground arith

parse_int-pos :
    (s t : Bytes) (d : ℕ) → s ≡ d ∷ t → IsDigit d → parse_int s ≡ signed b'+' (parse_uint s)
parse_int-pos s t d e h = rw e (signed_digit d t h)

pub first-IsDigit : (s t : Bytes) (d : ℕ) → All IsDigit s → s ≡ d ∷ t → IsDigit d
first-IsDigit [] t d h e = cc
first-IsDigit (c ∷ s) t d h e = ground arith

-- Every `int64` is read back from its decimal print.
pub parse_int-format_int : (a : ℤ) → IsInt64 a → parse_int (format_int a) ≡ some a
parse_int-format_int (pos n) h =
    let (d, t, e) = format_uint_cons n in
    unfold format_int in
    rw
      (parse_int-pos (format_uint n) t d e
        (first-IsDigit (format_uint n) t d (format_uint-IsDigit n) e))
      (rw (parse_uint-format_uint n (omega arith)) (unfold signed in ground arith))
parse_int-format_int (negsuc n) h =
    unfold format_int parse_int in
    rw (parse_uint-format_uint (n + 1) (omega arith)) (unfold signed in ground arith)

digits-length : (f k n : ℕ) (out : Bytes) → n < 10 ^ k → length (digits f n out) ≤ k + length out
unfolding digits
digits-length zero k n out h = omega arith
digits-length (suc f) zero n out h = elim (Bool-cases (n == 0)) [
  | inl e ↦ rw e (omega arith)
  | inr e ↦ ground arith
]
digits-length (suc f) (suc k) n out h = elim (Bool-cases (n == 0)) [
  | inl e ↦ rw e (omega arith)
  | inr e ↦ rw e (
      omega
        (arith, digits-length f k (n / 10) ((b'0' + n % 10) ∷ out) (omega (arith, pow-suc 10 k))))
]

-- A number of 64 bits has at most twenty digits.
pub format_uint-length : (n : ℕ) → n ≤ max_u64 → length (format_uint n) ≤ 20
unfolding format_uint
format_uint-length n h = elim (Bool-cases (n == 0)) [
  | inl e ↦ rw e (omega arith)
  | inr e ↦ rw e (omega (arith, digits-length n 19 (n / 10) ((b'0' + n % 10) ∷ []) (omega arith)))
]

pub format_int-length : (a : ℤ) → IsInt64 a → length (format_int a) ≤ 21
unfolding format_int
format_int-length (pos n) h = omega (arith, format_uint-length n (omega arith))
format_int-length (negsuc n) h = omega (arith, format_uint-length (n + 1) (omega arith))

-- A byte that is no digit and no sign.
abbrev pub IsSeparator : ℕ → Type 0
IsSeparator sep = (sep ≢ b'-') × ((c : ℕ) → IsDigit c → c ≢ sep)

digits-Lacks : (sep : ℕ) (s : Bytes) → IsSeparator sep → All IsDigit s → Lacks sep s
digits-Lacks sep [] is_sep h = tt
digits-Lacks sep (c ∷ s) is_sep h = (is_sep.1 c h.0, digits-Lacks sep s is_sep h.1)

pub format_int-Lacks : (sep : ℕ) (a : ℤ) → IsSeparator sep → Lacks sep (format_int a)
unfolding format_int
format_int-Lacks sep (pos n) is_sep =
    digits-Lacks sep (format_uint n) is_sep (format_uint-IsDigit n)
format_int-Lacks sep (negsuc n) is_sep = (
  λ e. is_sep.0 (sym e),
  digits-Lacks sep (format_uint (n + 1)) is_sep (format_uint-IsDigit (n + 1)),
)
