-- ===== src/Utils/Certs/RoundTrip.antt =====
-- Certificate chains between PEM and hex-encoded DER (uma/utils/cert_utils.go).
use uma_go_sdk.Base.{
  ℕ, zero, suc, ◌≤◌, ◌≡◌, ◌≢◌, refl, arith, ap, ◌∙◌, some, List, [], ◌∷◌, ◌++◌, Bytes, length,
  length-append, map, All, IsByte,
}
use uma_go_sdk.Go.Result.{ok, ◌>>=◌}
use uma_go_sdk.Go.Hex.{encode_to_string, decode-encode}
use uma_go_sdk.Crypto.{Crypto, IsPem}
use uma_go_sdk.Utils.Certs.{
  read_blocks, get_asn1_data_from_pem_chain, convert_pem_certificate_chain_to_hex_encoded_der,
  append_pem, convert_hex_encoded_der_to_pem_cert_chain,
}

append_assoc {ℓ} : {A : Type ℓ} (xs ys zs : List A) → ((xs ++ ys) ++ zs) ≡ (xs ++ (ys ++ zs))
append_assoc [] ys zs = refl
append_assoc (x ∷ xs) ys zs = ap (λ l. x ∷ l) (append_assoc xs ys zs)

append-nil {ℓ} : {A : Type ℓ} (xs : List A) → (xs ++ []) ≡ xs
append-nil [] = refl
append-nil (x ∷ xs) = ap (λ l. x ∷ l) (append-nil xs)

module _ (crypto : Crypto) where
  -- The PEM chain of the certificates.
  abbrev pub pem_chain : List Bytes → Bytes
  pem_chain [] = []
  pem_chain (block ∷ blocks) = crypto.encode_pem block ++ pem_chain blocks

  read_blocks-step :
      (fuel : ℕ) (s block rest : Bytes)
      → s ≢ []
      → crypto.decode_pem s ≡ some (block, rest)
      → read_blocks crypto (suc fuel) s
        ≡ (read_blocks crypto fuel rest >>= λ blocks. ok (block ∷ blocks))
  unfolding read_blocks
  read_blocks-step fuel [] block rest ne e = absurd (ne refl)
  read_blocks-step fuel (c ∷ s) block rest ne e = rw (e, read_blocks) refl

  length_pos : (s : Bytes) → s ≢ [] → 1 ≤ length s
  length_pos [] ne = absurd (ne refl)
  length_pos (c ∷ s) ne = omega arith

  append_ne : (s t : Bytes) → s ≢ [] → (s ++ t) ≢ []
  append_ne [] t ne = absurd (ne refl)
  append_ne (c ∷ s) t ne = λ e. cc

  module _ (pem : IsPem crypto) where
    read_blocks-pem_chain :
        (fuel : ℕ) (blocks : List Bytes)
        → length (pem_chain blocks) ≤ fuel
        → read_blocks crypto fuel (pem_chain blocks) ≡ ok blocks
    read_blocks-pem_chain fuel [] h = unfold read_blocks in refl
    read_blocks-pem_chain zero (block ∷ blocks) h = absurd (
        omega (
          arith,
          length_pos (crypto.encode_pem block) (pem block []).0,
          length-append (crypto.encode_pem block) (pem_chain blocks),
        ))
    read_blocks-pem_chain (suc fuel) (block ∷ blocks) h =
        let (ne, e) = pem block (pem_chain blocks) in
        let shorter : length (pem_chain blocks) ≤ fuel = omega (
          arith,
          length_pos (crypto.encode_pem block) ne,
          length-append (crypto.encode_pem block) (pem_chain blocks),
        ) in
        read_blocks-step fuel (pem_chain (block ∷ blocks)) block (pem_chain blocks)
          (append_ne (crypto.encode_pem block) (pem_chain blocks) ne) e
        ∙ rw (read_blocks-pem_chain fuel blocks shorter) refl

    append_pem-map :
        (chain : Bytes) (blocks : List Bytes)
        → All (All IsByte) blocks
        → append_pem crypto chain (map encode_to_string blocks) ≡ ok (chain ++ pem_chain blocks)
    unfolding append_pem
    append_pem-map chain [] h = rw (append-nil chain) refl
    append_pem-map chain (block ∷ blocks) h = rw (decode-encode block h.0) (
        append_pem-map (chain ++ crypto.encode_pem block) blocks h.1
        ∙ ap (λ s. ok s) (append_assoc chain (crypto.encode_pem block) (pem_chain blocks)))

    -- A PEM chain of certificates becomes the list of their hex-encoded bytes, and that list becomes
    -- the same chain again when there is at least one certificate.
    pub hex_der-round_trip :
        (block : Bytes) (blocks : List Bytes)
        → All (All IsByte) (block ∷ blocks)
        → (convert_pem_certificate_chain_to_hex_encoded_der crypto
              (some (pem_chain (block ∷ blocks)))
            ≡ ok (map encode_to_string (block ∷ blocks)))
          × (convert_hex_encoded_der_to_pem_cert_chain crypto
                (some (map encode_to_string (block ∷ blocks)))
              ≡ ok (some (pem_chain (block ∷ blocks))))
    unfolding convert_pem_certificate_chain_to_hex_encoded_der
        convert_hex_encoded_der_to_pem_cert_chain get_asn1_data_from_pem_chain
    hex_der-round_trip block blocks h = (
      rw
          (read_blocks-pem_chain (length (pem_chain (block ∷ blocks))) (block ∷ blocks)
            (omega arith))
          refl,
      rw (append_pem-map [] (block ∷ blocks) h) refl,
    )
