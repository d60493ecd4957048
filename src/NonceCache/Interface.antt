-- ===== src/NonceCache/Interface.antt =====
-- The interface NonceCache of uma/nonce_cache.go, which the checks of signed messages take, and what a
-- cache promises that keeps replays out.
use uma_go_sdk.Base.{List, [], ◌∷◌, ◌≡◌, ◌≢◌, Bytes}
use uma_go_sdk.Go.Result.{Result, ok}
use uma_go_sdk.Go.Time.{Time}

-- The methods of a cache whose state is an `S`. A method returns its result and the new state.
pub record NonceCache (S : Type 0) : Type 0 where
  pub check_and_save : S → Bytes → Time → Result (Unit {0}) × S
  pub purge_older_than : S → Time → S

-- The calls that the owner of a cache can make.
pub data Call : Type 0 where
  check : Bytes → Time → Call
  purge : Time → Call

module _ {S : Type 0} ⦃N : NonceCache S⦄ where
  unfoldable pub perform : S → Call → S
  perform c (check nonce t) = (N.check_and_save c nonce t).1
  perform c (purge t) = N.purge_older_than c t

  unfoldable pub perform_all : S → List Call → S
  perform_all c [] = c
  perform_all c (call ∷ calls) = perform_all (perform c call) calls

-- What an implementation shows to be safe against replays: its invariant, when a nonce and timestamp
-- are spent, and which purges go forward.
pub record ReplaySafe {S : Type 0} (N : NonceCache S) : Type 1 where
  pub IsValid : S → Type 0
  pub Spent : Bytes → Time → S → Type 0
  pub IsForward : S → Time → Type 0
  pub check_valid : (c : S) (k : Bytes) (t : Time) → IsValid c → IsValid (N.check_and_save c k t).1
  pub purge_valid : (c : S) (t : Time) → IsValid c → IsValid (N.purge_older_than c t)
  -- An accepted nonce is spent.
  pub accepted_spent :
      (k : Bytes) (t : Time) (c : S)
      → (N.check_and_save c k t).0 ≡ ok tt
      → Spent k t (N.check_and_save c k t).1
  -- A spent one stays so in every check, and in a purge that goes forward.
  pub check_spent :
      (k : Bytes) (t : Time) (c : S) (j : Bytes) (s : Time)
      → Spent k t c
      → Spent k t (N.check_and_save c j s).1
  pub purge_spent :
      (k : Bytes) (t : Time) (c : S) (s : Time)
      → IsValid c
      → IsForward c s
      → Spent k t c
      → Spent k t (N.purge_older_than c s)
  -- A spent one is refused.
  pub spent_refused :
      (k : Bytes) (t : Time) (c : S) → Spent k t c → (N.check_and_save c k t).0 ≢ ok tt

module _ {S : Type 0} ⦃N : NonceCache S⦄ (safe : ReplaySafe N) where
  -- No purge goes back behind an earlier one.
  abbrev pub Advances : S → List Call → Type 0
  Advances c [] = Unit
  Advances c (check nonce t ∷ calls) = Advances (perform c (check nonce t)) calls
  Advances c (purge t ∷ calls) = safe.IsForward c t × Advances (perform c (purge t)) calls

  perform_all-Spent :
      (k : Bytes) (t : Time) (c : S) (calls : List Call)
      → safe.IsValid c
      → Advances c calls
      → safe.Spent k t c
      → safe.Spent k t (perform_all c calls)
  unfolding perform_all perform
  perform_all-Spent k t c [] w adv h = h
  perform_all-Spent k t c (check j s ∷ calls) w adv h =
      perform_all-Spent k t (N.check_and_save c j s).1 calls (safe.check_valid c j s w)
        (unfold perform in adv) (safe.check_spent k t c j s h)
  perform_all-Spent k t c (purge s ∷ calls) w adv h =
      perform_all-Spent k t (N.purge_older_than c s) calls (safe.purge_valid c s w)
        (unfold perform in adv.1) (safe.purge_spent k t c s w adv.0 h)

  -- What a safe cache accepted it refuses after any calls.
  pub accepted_refused :
      (c : S) (k : Bytes) (t : Time) (calls : List Call)
      → safe.IsValid c
      → (N.check_and_save c k t).0 ≡ ok tt
      → Advances (N.check_and_save c k t).1 calls
      → (N.check_and_save (perform_all (N.check_and_save c k t).1 calls) k t).0 ≢ ok tt
  accepted_refused c k t calls w accepted adv =
      let c₁ = (N.check_and_save c k t).1 in
      safe.spent_refused k t (perform_all c₁ calls) (
        perform_all-Spent k t c₁ calls (safe.check_valid c k t w) adv
          (safe.accepted_spent k t c accepted))
