-- ===== src/Uma/LnurlpAnswer/Sendable.antt =====
-- The sendable amounts of an answer, in millisatoshis (GetLnurlpResponse of uma/uma.go).
use uma_go_sdk.Base.{ℕ, ◌≡◌, arith, Bytes}
use uma_go_sdk.Base.Int.{ℤ, pos, wrap_i64, wrap_i64-IsInt64, wrap_i64_id, IsInt64, ◌*ℤ◌}
use uma_go_sdk.Go.Result.{Result, ok}
use uma_go_sdk.Go.Time.{Time}
use mathlib.Core.Path.{subst}
use mathlib.Core.Logic.{◌↔◌}
use uma_go_sdk.Crypto.{Crypto}
use uma_go_sdk.Protocol.LnurlpRequest.{LnurlpRequest}
use uma_go_sdk.Protocol.LnurlpResponse.{LnurlpResponse}
use uma_go_sdk.Uma.LnurlpAnswer.{AnswerTerms, get_lnurlp_response}

thousandfold : (a : ℤ) → (wrap_i64 (a *ℤ pos 1000) ≡ a *ℤ pos 1000) ↔ IsInt64 (a *ℤ pos 1000)
thousandfold a =
    (λ e. subst IsInt64 e (wrap_i64-IsInt64 (a *ℤ pos 1000)), wrap_i64_id (a *ℤ pos 1000))

module _ (crypto : Crypto) (draw : Result ℕ) (random : Bytes) (now : Time) where
  -- The sendable amounts of an answer are a thousand times those of its terms exactly when these are
  -- int64: beyond, they have wrapped around.
  pub sendable_exact :
      (request : LnurlpRequest) (terms : AnswerTerms) (r : LnurlpResponse)
      → get_lnurlp_response crypto draw random now request terms ≡ ok r
      → ((r.min_sendable ≡ terms.min_sendable_sats *ℤ pos 1000)
          ↔ IsInt64 (terms.min_sendable_sats *ℤ pos 1000))
        × ((r.max_sendable ≡ terms.max_sendable_sats *ℤ pos 1000)
            ↔ IsInt64 (terms.max_sendable_sats *ℤ pos 1000))
  unfolding get_lnurlp_response
  sendable_exact request terms r h =
      ground (arith, thousandfold terms.min_sendable_sats, thousandfold terms.max_sendable_sats)
