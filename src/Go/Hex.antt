-- ===== src/Go/Hex.antt =====
-- `encoding/hex`.
use uma_go_sdk.Base.{
  ℕ, ◌+◌, ◌-◌, ◌*◌, ◌/◌, ◌%◌, ◌<◌, ◌&&◌, ◌≡◌, refl, Option, none, some, [], ◌∷◌, arith, Bytes,
  IsByte, All, ltb, leb, if◌then◌else◌, ap, ◌∙◌,
}

hex_digit : ℕ → ℕ
hex_digit n = if ltb n 10 then b'0' + n else b'a' + (n - 10)

-- hex.EncodeToString
unfoldable pub encode_to_string : Bytes → Bytes
unfolding hex_digit
encode_to_string [] = []
encode_to_string (c ∷ s) = hex_digit (c / 16) ∷ hex_digit (c % 16) ∷ encode_to_string s

hex_value : ℕ → Option ℕ
hex_value c =
    if leb b'0' c && leb c b'9'
    then some (c - b'0')
    else if leb b'a' c && leb c b'f'
    then some (c - b'a' + 10)
    else if leb b'A' c && leb c b'F'
    then some (c - b'A' + 10)
    else none

join_digits : Option ℕ → Option ℕ → Option Bytes → Option Bytes
join_digits (some h) (some l) (some s) = some ((h * 16 + l) ∷ s)
join_digits _ _ _ = none

-- hex.DecodeString
unfoldable pub decode_string : Bytes → Option Bytes
unfolding hex_value join_digits
decode_string [] = some []
decode_string (a ∷ []) = none
decode_string (a ∷ b ∷ s) = join_digits (hex_value a) (hex_value b) (decode_string s)

hex_value-digit : (n : ℕ) → n < 16 → hex_value (hex_digit n) ≡ some n
unfolding hex_value hex_digit
hex_value-digit n h = ground arith

hex_step :
    (h l : ℕ) (t s : Bytes)
    → h < 16
    → l < 16
    → decode_string t ≡ some s
    → decode_string (hex_digit h ∷ hex_digit l ∷ t) ≡ some ((h * 16 + l) ∷ s)
hex_step h l t s p q e = unfold decode_string in rw (hex_value-digit h p, hex_value-digit l q, e)

decode-cons :
    (c : ℕ) (s : Bytes)
    → IsByte c
    → decode_string (encode_to_string s) ≡ some s
    → decode_string (encode_to_string (c ∷ s)) ≡ some (c ∷ s)
unfolding encode_to_string
decode-cons c s h e =
    hex_step (c / 16) (c % 16) (encode_to_string s) s (omega arith) (omega arith) e
    ∙ ap (λ (n : ℕ). some (n ∷ s)) (omega arith)

pub decode-encode : (s : Bytes) → All IsByte s → decode_string (encode_to_string s) ≡ some s
decode-encode [] h = unfold decode_string encode_to_string in refl
decode-encode (c ∷ s) h = decode-cons c s h.0 (decode-encode s h.1)
