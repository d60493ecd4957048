-- ===== src/Go/Strconv.antt =====
-- `strconv`: FormatUint, FormatInt, ParseUint, ParseInt and Atoi, in base 10 with 64 bits.
pub mod RoundTrip
use uma_go_sdk.Base.{
  ℕ, zero, suc, ◌+◌, ◌-◌, ◌*◌, ◌/◌, ◌%◌, ◌^◌, ◌||◌, [], ◌∷◌, Option, none, some, ltb, ◌==◌, Bytes,
  if◌then◌else◌,
}
use uma_go_sdk.Base.Int.{ℤ, pos, negsuc}

abbrev pub max_u64 : ℕ
max_u64 = 2 ^ 64 - 1

-- Digits are written from the last one on; the first argument is fuel.
digits : ℕ → ℕ → Bytes → Bytes
digits zero n out = out
digits (suc f) n out =
    let rest = digits f (n / 10) ((b'0' + n % 10) ∷ out) in if n == 0 then out else rest

unfoldable pub format_uint : ℕ → Bytes
unfolding digits
format_uint n = if n == 0 then b'0' ∷ [] else digits (suc n) n []

unfoldable pub format_int : ℤ → Bytes
unfolding format_uint
format_int (pos n) = format_uint n
format_int (negsuc n) = b'-' ∷ format_uint (n + 1)

-- `n` is the value of the digits read so far; `none` is a syntax or a range error.
scan : Bytes → ℕ → Option ℕ
scan [] n = some n
scan (c ∷ s) n =
    let d = c - b'0' in
    let rest = scan s (n * 10 + d) in
    if ltb c b'0' || ltb b'9' c then none else if ltb max_u64 (n * 10 + d) then none else rest

unfoldable pub parse_uint : Bytes → Option ℕ
unfolding scan
parse_uint [] = none
parse_uint (c ∷ s) = scan (c ∷ s) 0

-- The number below a sign, within the range of `int64`.
signed : ℕ → Option ℕ → Option ℤ
signed sign none = none
signed sign (some n) =
    if sign == b'-'
    then (if ltb (2 ^ 63) n then none else if n == 0 then some (pos 0) else some (negsuc (n - 1)))
    else (if ltb (2 ^ 63 - 1) n then none else some (pos n))

unfoldable pub parse_int : Bytes → Option ℤ
unfolding signed parse_uint
parse_int [] = none
parse_int (c ∷ s) =
    if (c == b'-') || (c == b'+') then signed c (parse_uint s) else signed b'+' (parse_uint (c ∷ s))
