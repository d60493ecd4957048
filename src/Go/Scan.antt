-- ===== src/Go/Scan.antt =====
-- `fmt.Sscanf` with the verb %d, and `fmt.Sprintf` with it. Of the space runes that a verb skips only
-- those in ASCII are modelled.
use uma_go_sdk.Base.{
  ℕ, Bool, ap, ◌∙◌, ◌+◌, ◌||◌, ◌&&◌, Option, none, some, [], ◌∷◌, ◌++◌, ◌≡◌, refl, arith, Bytes,
  All, ◌==◌, leb, false, if◌then◌else◌,
}
use uma_go_sdk.Base.Int.{ℤ, pos, negsuc, IsInt64}
use uma_go_sdk.Go.Strconv.{format_uint, format_int, parse_int}
use uma_go_sdk.Go.Strconv.RoundTrip.{
  IsDigit, format_uint-IsDigit, format_uint_cons, parse_int-format_int, first-IsDigit,
}

is_space : ℕ → Bool
is_space c = c == 32 || c == 9 || c == 11 || c == 12 || c == 13

-- SkipSpace: a line feed is an error.
skip_space : Bytes → Option Bytes
unfolding is_space
skip_space [] = some []
skip_space (c ∷ s) =
    let rest = skip_space s in if c == 10 then none else if is_space c then rest else some (c ∷ s)

abbrev pub is_digit : ℕ → Bool
is_digit c = leb b'0' c && leb c b'9'

onto : ℕ → Bytes × Bytes → Bytes × Bytes
onto c (ds, rest) = (c ∷ ds, rest)

-- The digits at the front, and what follows them.
take_digits : Bytes → Bytes × Bytes
unfolding onto
take_digits [] = ([], [])
take_digits (c ∷ s) = let rest = take_digits s in if is_digit c then onto c rest else ([], c ∷ s)

with_rest : Bytes → Option ℤ → Option (ℤ × Bytes)
with_rest rest none = none
with_rest rest (some i) = some (i, rest)

scan_number : Bytes → Bytes × Bytes → Option (ℤ × Bytes)
unfolding with_rest
scan_number sign ([], rest) = none
scan_number sign (d ∷ ds, rest) = with_rest rest (parse_int (sign ++ d ∷ ds))

scan_signed : Bytes → Option (ℤ × Bytes)
unfolding scan_number take_digits
scan_signed [] = none
scan_signed (c ∷ s) =
    if c == b'-' || c == b'+'
    then scan_number (c ∷ []) (take_digits s)
    else scan_number [] (take_digits (c ∷ s))

after_space : Option Bytes → Option (ℤ × Bytes)
unfolding scan_signed
after_space none = none
after_space (some s) = scan_signed s

-- %d: the number, and the input behind it.
unfoldable pub scan_int : Bytes → Option (ℤ × Bytes)
unfolding skip_space after_space
scan_int s = after_space (skip_space s)

-- A literal byte of the format.
unfoldable pub scan_byte : ℕ → Bytes → Option Bytes
scan_byte b [] = none
scan_byte b (c ∷ s) = if c == b then some s else none

-- What does not go on with a digit.
abbrev pub NoDigit : Bytes → Type 0
NoDigit [] = Unit
NoDigit (c ∷ s) = is_digit c ≡ false

take_digits-append :
    (ds rest : Bytes) → All IsDigit ds → NoDigit rest → take_digits (ds ++ rest) ≡ (ds, rest)
unfolding take_digits
take_digits-append [] [] h n = refl
take_digits-append [] (c ∷ s) h n = ground arith
take_digits-append (d ∷ ds) rest h n = ground (arith, take_digits-append ds rest h.1 n)

scan_number-append :
    (sign ds rest : Bytes) (d : ℕ) (t : Bytes)
    → ds ≡ d ∷ t
    → All IsDigit ds
    → NoDigit rest
    → scan_number sign (take_digits (ds ++ rest)) ≡ with_rest rest (parse_int (sign ++ ds))
scan_number-append sign ds rest d t e h n =
    rw (take_digits-append ds rest h n) (unfold scan_number in rw e)

-- A digit at the front is neither skipped nor read as a sign.
scan_int_cons :
    (d : ℕ) (s : Bytes) → IsDigit d → scan_int (d ∷ s) ≡ scan_number [] (take_digits (d ∷ s))
unfolding scan_int
scan_int_cons d s h = ground arith

scan_int_digit :
    (ds rest : Bytes) (d : ℕ) (t : Bytes)
    → ds ≡ d ∷ t
    → All IsDigit ds
    → scan_int (ds ++ rest) ≡ scan_number [] (take_digits (ds ++ rest))
scan_int_digit ds rest d t e h = rw e (scan_int_cons d (t ++ rest) (first-IsDigit ds t d h e))

scan_int_minus : (s : Bytes) → scan_int (b'-' ∷ s) ≡ scan_number (b'-' ∷ []) (take_digits s)
unfolding scan_int
scan_int_minus s = refl

-- What %d writes, %d reads back, up to where no digit follows.
pub scan_int-format_int :
    (a : ℤ) (rest : Bytes)
    → IsInt64 a
    → NoDigit rest
    → scan_int (format_int a ++ rest) ≡ some (a, rest)
unfolding with_rest format_int
scan_int-format_int (pos n) rest h k =
    let (d, t, e) = format_uint_cons n in
    scan_int_digit (format_uint n) rest d t e (format_uint-IsDigit n)
    ∙ scan_number-append [] (format_uint n) rest d t e (format_uint-IsDigit n) k
    ∙ ap (with_rest rest) (parse_int-format_int (pos n) h)
scan_int-format_int (negsuc n) rest h k =
    let (d, t, e) = format_uint_cons (n + 1) in
    scan_int_minus (format_uint (n + 1) ++ rest)
    ∙ scan_number-append (b'-' ∷ []) (format_uint (n + 1)) rest d t e (format_uint-IsDigit (n + 1))
        k
    ∙ ap (with_rest rest) (parse_int-format_int (negsuc n) h)
