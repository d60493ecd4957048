-- ===== src/Utils/Certs.antt =====
-- uma/utils/cert_utils.go, over the PEM, ASN.1 and curve libraries of `Crypto`.
pub mod Blocks
pub mod RoundTrip
use uma_go_sdk.Base.{
  ℕ, zero, suc, ◌≤◌, Option, none, some, List, [], ◌∷◌, ◌++◌, ◌≡◌, ◌≢◌, refl, arith, Bytes, map, ap,
}
use uma_go_sdk.Base.{length}
use uma_go_sdk.Go.Result.{
  Result, ok, err, panic, ◌>>=◌, or_error, library_error, pem_not_decoded, empty_certificate_chain,
}
use uma_go_sdk.Go.Hex.{encode_to_string, decode_string}
use uma_go_sdk.Crypto.{Crypto, IsPemProgress}

module _ (crypto : Crypto) where
  -- The loop on the PEM data; the first argument is fuel, and without fuel it panics.
  unfoldable pub read_blocks : ℕ → Bytes → Result (List Bytes)
  read_blocks fuel [] = ok []
  read_blocks zero (c ∷ s) = panic
  read_blocks (suc fuel) (c ∷ s) = elim (crypto.decode_pem (c ∷ s)) [
    | none ↦ err pem_not_decoded
    | some (block, rest) ↦ read_blocks fuel rest >>= λ blocks. ok (block ∷ blocks)
  ]

  unfoldable pub get_asn1_data_from_pem_chain : Bytes → Result (List Bytes)
  unfolding read_blocks
  get_asn1_data_from_pem_chain cert_chain = read_blocks (length cert_chain) cert_chain

  unfoldable pub convert_pem_certificate_chain_to_hex_encoded_der :
      Option Bytes → Result (List Bytes)
  convert_pem_certificate_chain_to_hex_encoded_der none = ok []
  convert_pem_certificate_chain_to_hex_encoded_der (some cert_chain) = do
    asn1_certs ← get_asn1_data_from_pem_chain cert_chain
    ok (map encode_to_string asn1_certs)

  -- The loop on the hex-encoded certificates, onto the chain written so far.
  unfoldable pub append_pem : Bytes → List Bytes → Result Bytes
  append_pem pem_cert_chain [] = ok pem_cert_chain
  append_pem pem_cert_chain (hex_der_cert ∷ certs) = do
    der_cert ← or_error (decode_string hex_der_cert) library_error
    append_pem (pem_cert_chain ++ crypto.encode_pem der_cert) certs

  unfoldable pub convert_hex_encoded_der_to_pem_cert_chain :
      Option (List Bytes) → Result (Option Bytes)
  convert_hex_encoded_der_to_pem_cert_chain none = ok none
  convert_hex_encoded_der_to_pem_cert_chain (some []) = ok none
  convert_hex_encoded_der_to_pem_cert_chain (some (cert ∷ certs)) = do
    pem_cert_chain ← append_pem [] (cert ∷ certs)
    ok (some pem_cert_chain)

  -- The key of the first certificate.
  first_key : List Bytes → Result crypto.PublicKey
  first_key [] = err empty_certificate_chain
  first_key (cert ∷ certs) = crypto.certificate_key_bits cert >>= crypto.parse_pub_key

  unfoldable pub extract_pubkey_from_pem_certificate_chain : Bytes → Result crypto.PublicKey
  unfolding first_key
  extract_pubkey_from_pem_certificate_chain cert_chain =
      get_asn1_data_from_pem_chain cert_chain >>= first_key
