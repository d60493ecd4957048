-- ===== src/Uma/ToyJson.antt =====
-- A toy for the JSON library of the examples: a floating point number is an integer, and its 64 bits
-- are twice its absolute value, or one more when it is negative. Every text is the same document.
use uma_go_sdk.Base.{
  ℕ, ◌+◌, ◌*◌, ◌/◌, ◌%◌, ◌^◌, ◌==◌, ltb, ◌≡◌, ◌≢◌, refl, arith, Option, none, some, Bool, true,
  false, inl, inr, Bool-cases, Bytes, codes, if◌then◌else◌,
}
use uma_go_sdk.Base.Int.{ℤ, pos, negsuc, IsInt64}
use uma_go_sdk.Go.Result.{Result, ok, err, panic, library_error, or_error, ◌>>=◌, ok_injective}
use uma_go_sdk.Go.Strconv.{format_int, parse_int}
use uma_go_sdk.Go.Strconv.RoundTrip.{parse_int-format_int}
use uma_go_sdk.Go.Json.{Json, JsonLib, Float64}
use uma_go_sdk.Go.Json.Laws.{IsFloat64, IsExactInt}

abbrev pub to_bits : ℤ → ℕ
to_bits (pos n) = 2 * n
to_bits (negsuc n) = 2 * n + 1

abbrev pub of_bits : ℕ → ℤ
of_bits bits = if bits % 2 == 0 then pos (bits / 2) else negsuc (bits / 2)

abbrev pub toy_print : ℕ → Result Bytes
toy_print bits = if ltb bits (2 ^ 55) then ok (format_int (of_bits bits)) else err library_error

abbrev pub toy_parse : Bytes → Result ℕ
toy_parse s = or_error (parse_int s) library_error >>= λ a. ok (to_bits a)

abbrev pub toy_float : Float64
toy_float = record {
  parse = toy_parse;
  print = toy_print;
  of_int = to_bits;
  mul = λ a b. a * (b / 2);
  div = λ a b. if b / 2 == 0 then 0 else 2 * ((a / 2) / (b / 2));
  round = λ a. a;
  to_int64 = of_bits;
}

abbrev pub toy_lib : Json → JsonLib
toy_lib document = record {
  float = toy_float;
  write = λ v. ok (codes "json");
  read = λ s. ok document;
}

to-of_bits : (bits : ℕ) → to_bits (of_bits bits) ≡ bits
to-of_bits bits = elim (Bool-cases (bits % 2 == 0)) [
  | inl e ↦ rw e (ground arith)
  | inr e ↦ rw e (ground arith)
]

pub of-to_bits : (a : ℤ) → of_bits (to_bits a) ≡ a
of-to_bits (pos n) = ground arith
of-to_bits (negsuc n) = ground arith

of_bits-IsInt64 : (bits : ℕ) → ltb bits (2 ^ 55) ≡ true → IsInt64 (of_bits bits)
of_bits-IsInt64 bits h = ground arith

exact-IsInt64 : (a : ℤ) → IsExactInt a → IsInt64 a
exact-IsInt64 (pos n) h = ground arith
exact-IsInt64 (negsuc n) h = ground arith

exact_bits : (a : ℤ) → IsExactInt a → ltb (to_bits a) (2 ^ 55) ≡ true
exact_bits (pos n) h = ground arith
exact_bits (negsuc n) h = ground arith

toy_parse-print : (bits : ℕ) (s : Bytes) → toy_print bits ≡ ok s → toy_parse s ≡ ok bits
toy_parse-print bits s h = chosen (ltb bits (2 ^ 55)) refl h
  where
    chosen :
        (b : Bool)
        → ltb bits (2 ^ 55) ≡ b
        → (if b then ok (format_int (of_bits bits)) else err library_error) ≡ ok s
        → toy_parse s ≡ ok bits
    chosen true e k = rw⁻¹ (ok_injective k) (
        rw (parse_int-format_int (of_bits bits) (of_bits-IsInt64 bits e))
          (rw (to-of_bits bits) refl))
    chosen false e k = cc

pub toy-IsFloat64 : IsFloat64 toy_float
toy-IsFloat64 = record {
  parse-print = toy_parse-print;
  print_integer = λ a h.
      rw (parse_int-format_int a (exact-IsInt64 a h))
        (rw (exact_bits a h) (rw (of-to_bits a) refl));
}

pub toy_parse-ne-panic : (s : Bytes) → toy_parse s ≢ panic
toy_parse-ne-panic s = chosen (parse_int s)
  where
    chosen : (a : Option ℤ) → (or_error a library_error >>= λ b. ok (to_bits b)) ≢ panic
    chosen none = λ e. cc
    chosen (some a) = λ e. cc

pub toy_print-ne-panic : (bits : ℕ) → toy_print bits ≢ panic
toy_print-ne-panic bits = chosen (ltb bits (2 ^ 55))
  where
    chosen : (b : Bool) → (if b then ok (format_int (of_bits bits)) else err library_error) ≢ panic
    chosen true = λ e. cc
    chosen false = λ e. cc
