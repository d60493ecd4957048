-- ===== src/Uma/AmountTests.antt =====
-- The conversion of amounts in GetPayReqResponse (uma/uma.go) at concrete inputs.
use native.Mathlib.Nat.{mul-div_cancel, mul_assoc}
use uma_go_sdk.Base.{ℕ, ◌*◌, ◌/◌, ◌<◌, ◌==◌, ◌≡◌, refl, arith, none, some, codes, if◌then◌else◌}
use uma_go_sdk.Base.Int.{pos, wrap_i64, ◌+ℤ◌}
use uma_go_sdk.Protocol.PayRequest.{PayRequest, zero_pay_request}
use uma_go_sdk.Uma.ToyJson.{to_bits, of_bits, toy_float, of-to_bits}
use uma_go_sdk.Uma.PayResponse.{ResponseTerms, msats_amount, receiving_amount}
use uma_go_sdk.Uma.PayResponse.Amounts.{IsExactFloat, in_millisats, amounts_agree}

half : (n : ℕ) → (2 * n) / 2 ≡ n
half n = omega arith

toy_mul : (m n : ℕ) → of_bits (to_bits (pos m) * (to_bits (pos n) / 2)) ≡ pos (m * n)
toy_mul m n = rw (half n) (rw (mul_assoc 2 m n) (of-to_bits (pos (m * n))))

toy_div :
    (m n : ℕ)
    → 0 < n
    → of_bits (
        if to_bits (pos n) / 2 == 0
        then 0
        else 2 * ((to_bits (pos (m * n)) / 2) / (to_bits (pos n) / 2)))
      ≡ pos m
toy_div m n h = rw (half n) (rw (half (m * n)) (rw (mul-div_cancel m h) (positive n h)))
  where
    positive : (k : ℕ) → 0 < k → of_bits (if k == 0 then 0 else 2 * m) ≡ pos m
    positive k h = ground (arith, of-to_bits (pos m))

toy-IsExactFloat : IsExactFloat toy_float
toy-IsExactFloat = record {
  mul_exact = λ m n h k p. toy_mul m n;
  div_exact = λ m n pos_n h k p. toy_div m n pos_n;
}

abbrev request : PayRequest
request = record zero_pay_request {
  sending_amount_currency_code = some (codes "USD");
  receiving_currency_code = some (codes "USD");
  amount = pos 100;
  uma_major_version = pos 1;
}

-- A dollar cent is 24,000 millisatoshis, and the fees are 2,000.
abbrev terms : ResponseTerms
terms = record {
  metadata = codes "[]";
  receiving_currency_code = some (codes "USD");
  receiving_currency_decimals = some (pos 2);
  conversion_rate = some (to_bits (pos 24000));
  receiver_fees_millisats = some (pos 2000);
  receiver_channel_utxos = none;
  receiver_node_pub_key = none;
  utxo_callback = none;
  payee_data = none;
  receiving_vasp_private_key = none;
  payee_identifier = none;
  disposable = none;
  success_action = none;
}

amounts_agree_example :
    (msats_amount toy_float request terms ≡ wrap_i64 (pos (100 * 24000) +ℤ pos 2000))
    × (msats_amount toy_float (in_millisats toy_float request terms) terms
        ≡ msats_amount toy_float request terms)
    × (receiving_amount toy_float request terms ≡ some (pos 100))
    × (receiving_amount toy_float (in_millisats toy_float request terms) terms ≡ some (pos 100))
amounts_agree_example =
    amounts_agree toy_float toy-IsExactFloat request terms 100 24000 (pos 2000)
      (record {
        sending = refl;
        receiving = refl;
        amount = refl;
        rate = refl;
        fee = refl;
        int64_fee = (omega arith, omega arith);
        positive = omega arith;
        small = omega arith;
        small_rate = omega arith;
        small_product = omega arith;
      })
      refl
