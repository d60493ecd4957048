-- ===== src/Crypto.antt =====
-- What the program takes from its cryptographic libraries (crypto, secp256k1, ecdsa, pem, asn1), as a
-- record of parameters, and what it relies on: a signature verifies under the key pair's public key.
use uma_go_sdk.Base.{◌<◌, Bool, true, ◌≡◌, ◌≢◌, Option, some, [], ◌++◌, Bytes, All, IsByte}
use uma_go_sdk.Base.{length}
use uma_go_sdk.Go.Result.{Result, ok}

pub record Crypto : Type 1 where
  -- A parsed signature and a parsed public key.
  pub Signature : Type 0
  pub PublicKey : Type 0
  -- The SHA-256 sum; `Write` on a hash returns no error.
  pub sha256 : Bytes → Bytes
  -- privateKey.ToECDSA().Sign(rand.Reader, hash, SHA256): the random bytes, the private key, the hash.
  pub sign : Bytes → Bytes → Bytes → Result Bytes
  pub parse_der_signature : Bytes → Result Signature
  pub parse_pub_key : Bytes → Result PublicKey
  pub serialize_uncompressed : PublicKey → Bytes
  pub verify : Signature → Bytes → PublicKey → Bool
  -- eciesgo.NewPublicKeyFromBytes and eciesgo.Encrypt, with the random bytes that it takes.
  pub EncryptionKey : Type 0
  pub parse_encryption_key : Bytes → Result EncryptionKey
  pub encrypt : Bytes → EncryptionKey → Bytes → Result Bytes
  -- pem.Decode: the bytes of the next block and the rest; `none` when there is no block.
  pub decode_pem : Bytes → Option (Bytes × Bytes)
  -- pem.EncodeToMemory of a block of type CERTIFICATE.
  pub encode_pem : Bytes → Bytes
  -- asn1.Unmarshal of a certificate, then the right-aligned bits of its public key.
  pub certificate_key_bits : Bytes → Result Bytes

module _ (crypto : Crypto) where
  -- What a key pair is for: each signature by the private key is a string of bytes, not empty, that
  -- parses, and it verifies under the public key for the hash that was signed.
  abbrev pub IsKeyPair : Bytes → Bytes → Type 0
  IsKeyPair private_key public_key =
      (random hashed signature : Bytes)
      → crypto.sign random private_key hashed ≡ ok signature
      → All IsByte signature
        × (signature ≢ [])
        × ((s : crypto.Signature) × (k : crypto.PublicKey) × (crypto.parse_der_signature signature
              ≡ ok s)
            × (crypto.parse_pub_key public_key ≡ ok k)
            × (crypto.verify s hashed k ≡ true))

  -- With these random bytes the private key signs every hash.
  abbrev pub IsSigner : Bytes → Bytes → Type 0
  IsSigner random private_key =
      (hashed : Bytes)
      → (signature : Bytes) × (crypto.sign random private_key hashed ≡ ok signature)

  -- A decoded block is taken off its input.
  abbrev pub IsPemProgress : Type 0
  IsPemProgress =
      (s block rest : Bytes) → crypto.decode_pem s ≡ some (block, rest) → length rest < length s

  -- A block that is encoded is decoded again, and what follows it is the rest.
  abbrev pub IsPem : Type 0
  IsPem =
      (block rest : Bytes)
      → (crypto.encode_pem block ≢ [])
        × (crypto.decode_pem (crypto.encode_pem block ++ rest) ≡ some (block, rest))
