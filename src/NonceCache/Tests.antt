-- ===== src/NonceCache/Tests.antt =====
-- The nonce cache of uma/nonce_cache.go at concrete inputs.
use uma_go_sdk.Base.{
  ℕ, zero, suc, ◌<◌, All, arith, List, [], ◌∷◌, false, ◌≡◌, ◌≢◌, ◌≤◌, refl, Bytes, codes, eqb,
}
use uma_go_sdk.Base.Int.{pos}
use uma_go_sdk.Go.Result.{ok}
use uma_go_sdk.Go.Time.{Time, before}
use uma_go_sdk.Go.Map.{lookup, insert, delete}
use uma_go_sdk.NonceCache.{
  InMemoryNonceCache, new_in_memory_nonce_cache, check_and_save_nonce, purge_nonces_older_than,
  in_memory,
}
use uma_go_sdk.NonceCache.Interface.{Call, check, purge, perform, perform_all}
use uma_go_sdk.NonceCache.Replay.{no_replay, rollback_replays}
use uma_go_sdk.NonceCache.Recent.{stored_recent}
use uma_go_sdk.NonceCache.Fairness.Turns.{turns, IsDone}
use uma_go_sdk.NonceCache.Fairness.{callers, one_accepted}
use uma_go_sdk.NonceCache.Linear.{IsSequential, history, linear}
use uma_go_sdk.NonceCache.Interleaving.{
  Thread, checking, storing, purging, run, accepted, race, accepted_once, race_replays,
}

abbrev at : ℕ → Time
at s = record { ext = pos s; nsec = 0 }

abbrev nonce_a : Bytes
nonce_a = codes "2301"

abbrev start : InMemoryNonceCache
start = record { cache = (codes "77", at 8) ∷ []; oldest_valid_timestamp = at 5 }

accepted-start : (check_and_save_nonce start nonce_a (at 6)).0 ≡ ok tt
unfolding check_and_save_nonce before lookup eqb
accepted-start = refl

abbrev calls : List Call
calls = check (codes "4") (at 7) ∷ purge (at 9) ∷ check nonce_a (at 10) ∷ []

no_replay_example :
    (check_and_save_nonce
      (perform_all (check_and_save_nonce start nonce_a (at 6)).1 calls)
      nonce_a
      (at 6)).0
    ≢ ok tt
no_replay_example =
    no_replay start nonce_a (at 6) calls (unfold lookup in (refl, tt)) accepted-start
      (unfold perform check_and_save_nonce before in (refl, tt))

rollback_replays_example :
    (check_and_save_nonce
      (perform_all (check_and_save_nonce start nonce_a (at 6)).1 (purge (at 9) ∷ purge (at 5) ∷ []))
      nonce_a
      (at 6)).0
    ≡ ok tt
rollback_replays_example =
    rollback_replays start nonce_a (at 6) (at 9) (at 5) (unfold lookup in (refl, tt)) accepted-start
      (unfold before in refl) (unfold before in refl)

abbrev three_checks : List Thread
three_checks = checking nonce_a (at 6) ∷ storing nonce_a (at 7) ∷ checking nonce_a (at 8) ∷ []

accepted_once_example : accepted nonce_a (run start three_checks (2 ∷ 0 ∷ 0 ∷ 1 ∷ 2 ∷ [])).1 ≤ 1
accepted_once_example =
    accepted_once nonce_a start three_checks (2 ∷ 0 ∷ 0 ∷ 1 ∷ 2 ∷ []) (tt, (tt, (tt, tt)))
      (unfold accepted in refl)

race_replays_example :
    accepted nonce_a
      (run
        (new_in_memory_nonce_cache (at 5))
        (checking nonce_a (at 6) ∷ checking nonce_a (at 6) ∷ purging (at 9) ∷ [])
        race).1
    ≡ 2
race_replays_example =
    race_replays nonce_a (at 6) (at 5) (at 9) (unfold before in refl) (unfold before in refl)

stored_recent_example :
    before (at 10) (perform_all (new_in_memory_nonce_cache (at 5)) calls).oldest_valid_timestamp
    ≡ false
stored_recent_example = stored_recent (at 5) calls nonce_a (at 10) (
    unfold perform_all perform check_and_save_nonce new_in_memory_nonce_cache lookup before eqb
      purge_nonces_older_than delete insert in
    refl)

abbrev two_new : List Thread
two_new = checking nonce_a (at 6) ∷ checking nonce_a (at 7) ∷ []

abbrev turn_by_turn : List ℕ
turn_by_turn = 1 ∷ 0 ∷ 0 ∷ 1 ∷ []

fair_to_two : (i : ℕ) → i < 2 → 2 ≤ turns i turn_by_turn
unfolding turns
fair_to_two zero h = omega arith
fair_to_two (suc zero) h = omega arith
fair_to_two (suc (suc i)) h = omega arith

one_accepted_example :
    All IsDone (run start two_new turn_by_turn).1
    × (accepted nonce_a (run start two_new turn_by_turn).1 ≡ 1)
unfolding eqb
one_accepted_example =
    one_accepted nonce_a start two_new turn_by_turn (unfold lookup in refl)
      (unfold before in (refl, (refl, tt))) fair_to_two (unfold callers in omega arith)

linear_example :
    IsSequential start (history start two_new turn_by_turn) (run start two_new turn_by_turn).0
linear_example = linear start two_new turn_by_turn (tt, (tt, tt))
