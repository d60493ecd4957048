-- ===== src/Uma/Toy.antt =====
-- Inputs for the examples of uma/uma.go, with a toy for the cryptographic libraries: the sum of the
-- key and of what is signed, in one byte.
use mathlib.Core.Path.{subst}
use uma_go_sdk.Base.{
  ℕ, zero, suc, ◌+◌, ◌%◌, ◌++◌, true, false, ◌≡◌, ◌≢◌, refl, arith, Option, none, some, [], ◌∷◌,
  Bytes, codes, eqb, eqb_refl, All, IsByte,
}
use uma_go_sdk.Base.Int.{pos, wrap_int, ◌+ℤ◌, ◌-ℤ◌}
use uma_go_sdk.Go.Result.{ok, ok_injective}
use uma_go_sdk.Go.Strconv.{format_uint}
use uma_go_sdk.Go.Time.{Time, unix, unix_seconds, before}
use uma_go_sdk.Go.Map.{lookup}
use uma_go_sdk.Go.Hex.{encode_to_string, decode_string}
use uma_go_sdk.Crypto.{Crypto, IsKeyPair, IsSigner, IsPemProgress, IsPem}
use uma_go_sdk.NonceCache.{InMemoryNonceCache}
use uma_go_sdk.Protocol.PubKeyResponse.{PubKeyResponse, signing_pub_key}
use uma_go_sdk.Uma.Lnurlp.{is_username, all_username_chars, is_username_char}
use uma_go_sdk.Uma.Lnurlp.UrlRoundTrip.{IsUsername}

abbrev pub sum : Bytes → ℕ
sum [] = 0
sum (c ∷ s) = c + sum s

abbrev pub toy_signature : Bytes → Bytes → Bytes
toy_signature key hashed = ((sum key + sum hashed) % 256) ∷ []

-- A block is encoded as its bytes, each one more, and a zero.
abbrev pub toy_encode : Bytes → Bytes
toy_encode [] = 0 ∷ []
toy_encode (c ∷ s) = suc c ∷ toy_encode s

abbrev pub toy_push : ℕ → Option (Bytes × Bytes) → Option (Bytes × Bytes)
toy_push c none = none
toy_push c (some (block, rest)) = some (c ∷ block, rest)

abbrev pub toy_decode : Bytes → Option (Bytes × Bytes)
toy_decode [] = none
toy_decode (zero ∷ s) = some ([], s)
toy_decode (suc c ∷ s) = toy_push c (toy_decode s)

abbrev pub toy : Crypto
toy = record {
  Signature = Bytes;
  PublicKey = Bytes;
  sha256 = λ s. (sum s % 256) ∷ [];
  sign = λ random key hashed. ok (toy_signature key hashed);
  parse_der_signature = λ s. ok s;
  parse_pub_key = λ s. ok s;
  serialize_uncompressed = λ k. k;
  verify = λ s hashed k. eqb s (toy_signature k hashed);
  EncryptionKey = Bytes;
  parse_encryption_key = λ s. ok s;
  encrypt = λ random k s. ok s;
  decode_pem = toy_decode;
  encode_pem = toy_encode;
  certificate_key_bits = λ s. ok s;
}

pub toy-IsKeyPair : (key : Bytes) → IsKeyPair toy key key
toy-IsKeyPair key random hashed signature e =
    subst
      (λ s.
        All IsByte s
        × (s ≢ [])
        × ((t : Bytes) × (k : Bytes) × (ok s ≡ ok t)
            × (ok key ≡ ok k)
            × (eqb t (toy_signature k hashed) ≡ true)))
      (ok_injective e)
      ((omega arith, tt), λ x. cc, (toy_signature key hashed, key, refl, refl, eqb_refl _))

pub toy-IsSigner : (random key : Bytes) → IsSigner toy random key
toy-IsSigner random key hashed = (toy_signature key hashed, refl)

push_inv :
    (c : ℕ) (o : Option (Bytes × Bytes)) (block rest : Bytes)
    → toy_push c o ≡ some (block, rest)
    → (b : Bytes) × (o ≡ some (b, rest))
push_inv c none block rest h = cc
push_inv c (some (b, r)) block rest h = (b, cc)

pub toy-IsPemProgress : IsPemProgress toy
toy-IsPemProgress [] block rest e = ground arith
toy-IsPemProgress (zero ∷ s) block rest e = ground arith
toy-IsPemProgress (suc c ∷ s) block rest e =
    let (b, h) = push_inv c (toy_decode s) block rest e in
    omega (arith, toy-IsPemProgress s b rest h)

toy_decode-encode :
    (block rest : Bytes) → toy_decode (toy_encode block ++ rest) ≡ some (block, rest)
toy_decode-encode [] rest = refl
toy_decode-encode (c ∷ block) rest = rw (toy_decode-encode block rest) refl

toy_encode_ne : (block : Bytes) → toy_encode block ≢ []
toy_encode_ne [] = λ e. cc
toy_encode_ne (c ∷ block) = λ e. cc

pub toy-IsPem : IsPem toy
toy-IsPem block rest = (toy_encode_ne block, toy_decode-encode block rest)

abbrev pub key : Bytes
key = codes "secret"

abbrev pub random_bytes : Bytes
random_bytes = 7 ∷ []

abbrev pub vasp : PubKeyResponse
vasp = record {
  signing_cert_chain = none;
  encryption_cert_chain = none;
  signing_pub_key_hex = some (encode_to_string key);
  encryption_pub_key_hex = none;
  expiration_timestamp = none;
}

pub vasp-key : signing_pub_key toy vasp ≡ ok key
unfolding signing_pub_key encode_to_string decode_string
vasp-key = refl

abbrev pub now : Time
now = record { ext = pos 63800000000; nsec = 5 }

abbrev pub cache : InMemoryNonceCache
cache = record { cache = (codes "77", now) ∷ []; oldest_valid_timestamp = unix (pos 0) }

abbrev pub user : Bytes
user = codes "$bob"

abbrev pub domain : Bytes
domain = codes "vasp2.com"

pub user_valid : IsUsername user
unfolding is_username all_username_chars is_username_char
user_valid = refl

pub domain_valid : IsUsername domain
unfolding is_username all_username_chars is_username_char
domain_valid = refl

pub unseen : lookup (format_uint 2301) cache.cache ≡ none
unfolding lookup eqb format_uint
unseen = refl

pub young : before (unix (unix_seconds now)) cache.oldest_valid_timestamp ≡ false
unfolding before unix unix_seconds wrap_int ◌+ℤ◌ ◌-ℤ◌
young = refl
