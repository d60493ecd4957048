-- ===== src/Uma/PayResponse/Amounts.antt =====
-- The conversion of amounts in GetPayReqResponse (uma/uma.go), for multipliers that are integers.
use uma_go_sdk.Base.{ℕ, ◌*◌, ◌^◌, ◌≤◌, ◌<◌, true, false, ◌≡◌, ◌∙◌, ap, sym, refl, arith, some, none}
use uma_go_sdk.Base.Int.{ℤ, pos, eqb_ℤ, IsInt64, wrap_i64, wrap_i64-undo, ◌+ℤ◌}
use uma_go_sdk.Go.Json.{Float64}
use uma_go_sdk.Protocol.LnurlpRequest.{is_set}
use uma_go_sdk.Protocol.PayRequest.{PayRequest}
use uma_go_sdk.Uma.PayResponse.{ResponseTerms, msats_amount, receiving_amount}

-- What is relied on of float64: products and quotients of integers are exact up to 2 ^ 53.
pub record IsExactFloat (float : Float64) : Type 0 where
  pub mul_exact :
      (m n : ℕ)
      → m ≤ 2 ^ 53
      → n ≤ 2 ^ 53
      → m * n ≤ 2 ^ 53
      → float.to_int64 (float.round (float.mul (float.of_int (pos m)) (float.of_int (pos n))))
        ≡ pos (m * n)
  pub div_exact :
      (m n : ℕ)
      → 0 < n
      → m ≤ 2 ^ 53
      → n ≤ 2 ^ 53
      → m * n ≤ 2 ^ 53
      → float.to_int64 (float.round (float.div (float.of_int (pos (m * n))) (float.of_int (pos n))))
        ≡ pos m

-- A request for `n` units of the receiving currency, answered with a multiplier of `r` millisatoshis
-- and these fees.
pub record IsSentAs (request : PayRequest) (t : ResponseTerms) (float : Float64) (n r : ℕ)
    (fees : ℤ) : Type 0 where
  pub sending : is_set request.sending_amount_currency_code ≡ true
  pub receiving : is_set t.receiving_currency_code ≡ true
  pub amount : request.amount ≡ pos n
  pub rate : t.conversion_rate ≡ some (float.of_int (pos r))
  pub fee : t.receiver_fees_millisats ≡ some fees
  pub int64_fee : IsInt64 fees
  pub positive : 0 < r
  pub small : n ≤ 2 ^ 53
  pub small_rate : r ≤ 2 ^ 53
  pub small_product : n * r ≤ 2 ^ 53

unconverted :
    (float : Float64) (p : PayRequest) (t : ResponseTerms)
    → is_set p.sending_amount_currency_code ≡ false
    → msats_amount float p t ≡ p.amount
unfolding msats_amount
unconverted float p t h = ground arith

-- The request for the same payment in millisatoshis.
abbrev pub in_millisats : Float64 → PayRequest → ResponseTerms → PayRequest
in_millisats float request t = record request {
  sending_amount_currency_code = none;
  amount = msats_amount float request t;
}

module _ (float : Float64) (exact : IsExactFloat float) (request : PayRequest) (t : ResponseTerms)
    (n r : ℕ) (fees : ℤ) (sent : IsSentAs request t float n r fees) where
  invoiced : msats_amount float request t ≡ wrap_i64 (pos (n * r) +ℤ fees)
  unfolding msats_amount
  invoiced = simp (
    sent.sending,
    sent.receiving,
    sent.amount,
    sent.rate,
    sent.fee,
    exact.mul_exact n r sent.small sent.small_rate sent.small_product,
  )

  product-IsInt64 : IsInt64 (pos (n * r))
  product-IsInt64 = (omega arith, omega (arith, sent.small_product))

  returned :
      eqb_ℤ request.uma_major_version (pos 0) ≡ false
      → receiving_amount float (in_millisats float request t) t ≡ some (pos n)
  unfolding receiving_amount
  returned version = rw version (
      rw
        (
          unconverted float (in_millisats float request t) t refl,
          invoiced,
          sent.fee,
          sent.rate,
          wrap_i64-undo (pos (n * r)) fees product-IsInt64 sent.int64_fee,
          exact.div_exact n r sent.positive sent.small sent.small_rate sent.small_product,
        )
        refl)

  -- An amount in the receiving currency, of a request of a version other than 0, is invoiced at its
  -- product with the multiplier plus the fees, as an int64 that may wrap around; a request for that
  -- many millisatoshis is invoiced at the same, and both are told the amount in the receiving currency
  -- that was asked for; if the multiplier is an integer that is not 0, the amount, the multiplier and
  -- their product are at most 2 ^ 53, and the fees are an int64.
  pub amounts_agree :
      eqb_ℤ request.uma_major_version (pos 0) ≡ false
      → (msats_amount float request t ≡ wrap_i64 (pos (n * r) +ℤ fees))
        × (msats_amount float (in_millisats float request t) t ≡ msats_amount float request t)
        × (receiving_amount float request t ≡ some request.amount)
        × (receiving_amount float (in_millisats float request t) t ≡ some request.amount)
  amounts_agree version = (
    invoiced,
    unconverted float (in_millisats float request t) t refl,
    unfold receiving_amount in rw version (rw sent.sending refl),
    returned version ∙ ap some (sym sent.amount),
  )
