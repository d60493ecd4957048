-- ===== src/Utils/Certs/Blocks.antt =====
-- The loop on PEM blocks (getAsn1DataFromPemChain of uma/utils/cert_utils.go).
use uma_go_sdk.Base.{
  ℕ, zero, suc, ◌≤◌, List, [], ◌∷◌, ◌≢◌, refl, arith, Bytes, length, Option-cases, inl, inr,
}
use uma_go_sdk.Go.Result.{Result, ok, err, panic, ◌>>=◌}
use uma_go_sdk.Crypto.{Crypto, IsPemProgress}
use uma_go_sdk.Utils.Certs.{read_blocks, get_asn1_data_from_pem_chain}

cons_ne_panic :
    (block : Bytes) (m : Result (List Bytes))
    → m ≢ panic
    → (m >>= λ blocks. ok (block ∷ blocks)) ≢ panic
cons_ne_panic block (ok a) h = λ e. cc
cons_ne_panic block (err x) h = λ e. cc
cons_ne_panic block panic h = λ e. h refl

module _ (crypto : Crypto) (progress : IsPemProgress crypto) where
  read_blocks-ne-panic :
      (fuel : ℕ) (s : Bytes) → length s ≤ fuel → read_blocks crypto fuel s ≢ panic
  unfolding read_blocks
  read_blocks-ne-panic zero [] h = λ e. cc
  read_blocks-ne-panic (suc fuel) [] h = λ e. cc
  read_blocks-ne-panic zero (c ∷ s) h = omega arith
  read_blocks-ne-panic (suc fuel) (c ∷ s) h = elim (Option-cases (crypto.decode_pem (c ∷ s))) [
    | inl e ↦ rw (e, read_blocks) (λ k. cc)
    | inr ((block, rest), e) ↦
        rw (e, read_blocks)
          (cons_ne_panic block (read_blocks crypto fuel rest)
            (read_blocks-ne-panic fuel rest (omega (arith, progress (c ∷ s) block rest e))))
  ]

  -- The loop over a PEM chain ends on every input, within fuel of its length, if each decoded block is
  -- taken off the input: its result is a list of blocks or an error.
  pub get_asn1-ne-panic : (s : Bytes) → get_asn1_data_from_pem_chain crypto s ≢ panic
  unfolding get_asn1_data_from_pem_chain
  get_asn1-ne-panic s = read_blocks-ne-panic (length s) s (omega arith)
