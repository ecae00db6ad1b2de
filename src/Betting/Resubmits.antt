-- ===== src/Betting/Resubmits.antt =====
-- `placeBet` of executor.ts when confirmations time out.
use Prim.Native.Nat.{ℕ, zero, suc, ◌+◌}
use crash_wave.Prelude.{
  ◌≡◌, refl, ◌∙◌, Bool, true, false, ◌&&◌, some, String, List, ltb, arith, if_cases,
}
use crash_wave.Betting.Types.{PlaceBetRequest, Outcome, returned, threw, BetExecutionResult}
use crash_wave.Betting.Executor.{
  BetExecutor, call, submit_bet, wait_for_confirmation, Loop, first_loop, again, LoopEnd, World,
  says_timed_out, caught, awaited, submitted, try_attempt, attempts, place_live, place_reserved,
  after_reserve, place_bet,
}
use crash_wave.Betting.Attempts.{finish-calls}
use crash_wave.Betting.Once.{bets_landed}

module _ {S : Type 0} (x : BetExecutor S) (r : PlaceBetRequest) (e : String)
    (accepts : (n : ℕ) → x.adapter.submit_bet r n ≡ returned true)
    (silent : (n : ℕ) → x.adapter.wait_for_confirmation r.bet_id n ≡ threw e)
    (timeout : says_timed_out e ≡ true) where
  -- The variables after a timeout.
  abbrev cleared : Loop → Loop
  cleared l = record l { last_error = some e; external_side_effect_attempted = false }

  abbrev waited : ℕ → World S → World S
  waited n w = call (wait_for_confirmation n) (call (submit_bet n) w)

  try_attempt-timeout :
      (n : ℕ) (l : Loop) (w : World S) → try_attempt x r n l w ≡ (again (cleared l), waited n w)
  unfolding try_attempt submitted awaited caught
  try_attempt-timeout n l w = rw (accepts n, silent n, timeout) refl

  attempts-timeout :
      (left n : ℕ) (l : Loop) (w : World S)
      → l.external_side_effect_attempted ≡ false
      → bets_landed x.adapter r (attempts x r left n l w).1.calls
        ≡ left + bets_landed x.adapter r w.calls
  unfolding attempts
  attempts-timeout zero n l w f = omega arith
  attempts-timeout (suc left) n l w f =
      if_cases
        (λ (p : LoopEnd × World S).
          bets_landed x.adapter r p.1.calls ≡ suc left + bets_landed x.adapter r w.calls)
        (ltb 0 n && l.external_side_effect_attempted) (λ h. ground (arith, f, h))
        (λ _. rw (try_attempt-timeout n (record l { retry_count = n }) w) (
          attempts-timeout left (suc n) (cleared (record l { retry_count = n })) (waited n w) refl
          ∙ rw (accepts n) (omega arith)))

  after_reserve-timeout :
      (o : Outcome Bool × S) (cs : List _)
      → r.dry_run ≡ false
      → o.0 ≡ returned true
      → bets_landed x.adapter r (after_reserve x r o cs).1.calls
        ≡ suc x.max_placement_retries + bets_landed x.adapter r cs
  unfolding after_reserve place_reserved place_live
  after_reserve-timeout (threw _, s) cs live e = cc
  after_reserve-timeout (returned false, s) cs live e = cc
  after_reserve-timeout (returned true, s) cs live e =
      let w : World S = record { store = s; calls = cs } in
      if_cases
        (λ (p : BetExecutionResult × World S).
          bets_landed x.adapter r p.1.calls
          ≡ suc x.max_placement_retries + bets_landed x.adapter r cs)
        r.dry_run (λ dry. cc)
        (λ _.
          rw (finish-calls x r (attempts x r (suc x.max_placement_retries) 0 first_loop w))
            (attempts-timeout (suc x.max_placement_retries) 0 first_loop w refl))

  -- When every submission is accepted and every confirmation fails with the same timeout, a live
  -- placement that reserved its key has `maxPlacementRetries` + 1 accepted submissions: a timeout
  -- does not stop the retries.
  pub place_bet-timeout :
      (w : World S)
      → r.dry_run ≡ false
      → (x.idempotency.reserve r.session_id r.round_id r.bet_id w.store).0 ≡ returned true
      → bets_landed x.adapter r (place_bet x r w).1.calls
        ≡ suc x.max_placement_retries + bets_landed x.adapter r w.calls
  unfolding place_bet
  place_bet-timeout w =
      after_reserve-timeout (x.idempotency.reserve r.session_id r.round_id r.bet_id w.store) w.calls
