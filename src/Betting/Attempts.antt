-- ===== src/Betting/Attempts.antt =====
-- How often `placeBet` of executor.ts reaches the adapter.
use Prim.Native.Nat.{ℕ, zero, suc, ◌+◌, ◌≤◌}
use crash_wave.Prelude.{
  ◌≡◌, refl, ap, Bool, true, false, ◌&&◌, List, [], ◌∷◌, ltb, arith, Bool-cases, if_both, inl, inr,
}
use crash_wave.Betting.Types.{PlaceBetRequest, Outcome, returned, threw, Done, BetExecutionResult}
use crash_wave.Betting.Executor.{
  BetExecutor, gave_up, place_dry, place_live, accepted, call, AdapterCall, submit_bet,
  wait_for_confirmation, Loop, first_loop, Step, again, LoopEnd, World, after, completed, awaited,
  submitted, try_attempt, attempts, finish, place_reserved, after_reserve, place_bet, recorded,
  unexpected,
}

-- The submissions among some calls.
abbrev pub submissions : List AdapterCall → ℕ
submissions [] = 0
submissions (submit_bet n ∷ cs) = suc (submissions cs)
submissions (wait_for_confirmation n ∷ cs) = submissions cs

module _ {S : Type 0} (x : BetExecutor S) where
  completed-calls :
      (o : Outcome Done × S) (l : Loop) (cs : List AdapterCall) → (completed x o l cs).1.calls ≡ cs
  unfolding completed
  completed-calls (returned _, s) l cs = refl
  completed-calls (threw e, s) l cs = refl

  awaited-calls :
      (r : PlaceBetRequest) (o : Outcome Bool) (l : Loop) (w : World S)
      → (awaited x r o l w).1.calls ≡ w.calls
  unfolding awaited
  awaited-calls r (threw e) l w = refl
  awaited-calls r (returned false) l w = refl
  awaited-calls r (returned true) l w = completed-calls _ l w.calls

  submitted-submissions :
      (r : PlaceBetRequest) (n : ℕ) (o : Outcome Bool) (l : Loop) (w : World S)
      → submissions (submitted x r n o l w).1.calls ≡ submissions w.calls
  unfolding submitted
  submitted-submissions r n (threw e) l w = refl
  submitted-submissions r n (returned false) l w = refl
  submitted-submissions r n (returned true) l w = ap submissions (
      awaited-calls r (x.adapter.wait_for_confirmation r.bet_id n) (accepted l)
        (call (wait_for_confirmation n) w))

  try_attempt-submissions :
      (r : PlaceBetRequest) (n : ℕ) (l : Loop) (w : World S)
      → submissions (try_attempt x r n l w).1.calls ≡ suc (submissions w.calls)
  unfolding try_attempt
  try_attempt-submissions r n l w =
      submitted-submissions r n (x.adapter.submit_bet r n) l (call (submit_bet n) w)

  after-submissions :
      (p : Step × World S) (go : Loop → World S → LoopEnd × World S) (left : ℕ)
      → ((l : Loop) (w : World S) → submissions (go l w).1.calls ≤ left + submissions w.calls)
      → submissions (after p go).1.calls ≤ left + submissions p.1.calls
  after-submissions (again l, w) go left h = h l w
  after-submissions (p, w) go left h = omega arith

  pub attempts-submissions :
      (r : PlaceBetRequest) (left n : ℕ) (l : Loop) (w : World S)
      → submissions (attempts x r left n l w).1.calls ≤ left + submissions w.calls
  unfolding attempts
  attempts-submissions r zero n l w = omega arith
  attempts-submissions r (suc left) n l w =
      elim (Bool-cases (ltb 0 n && l.external_side_effect_attempted)) [
        | inl blocked ↦ rw blocked (omega arith)
        | inr free ↦ rw free (
            omega (
              arith,
              after-submissions (try_attempt x r n (record l { retry_count = n }) w)
                  (attempts x r left (suc n)) left (attempts-submissions r left (suc n)),
              try_attempt-submissions r n (record l { retry_count = n }) w,
            ))
      ]

  recorded-calls :
      (r : PlaceBetRequest) (q : BetExecutionResult) (o : Outcome Done × S) (cs : List AdapterCall)
      → (recorded x r q o cs).1.calls ≡ cs
  unfolding recorded unexpected
  recorded-calls r q (returned _, s) cs = refl
  recorded-calls r q (threw e, s) cs = refl

  pub finish-calls :
      (r : PlaceBetRequest) (p : LoopEnd × World S) → (finish x r p).1.calls ≡ p.1.calls
  unfolding finish
  finish-calls r (LoopEnd.placed l, w) = refl
  finish-calls r (gave_up l, w) =
      if_both (λ (p : BetExecutionResult × World S). p.1.calls ≡ w.calls)
        l.external_side_effect_attempted (recorded-calls r _ _ w.calls)
        (recorded-calls r _ _ w.calls)

  pub place_dry-calls : (r : PlaceBetRequest) (w : World S) → (place_dry x r w).1.calls ≡ w.calls
  unfolding place_dry
  place_dry-calls r w = recorded-calls r _ _ w.calls

  place_live-submissions :
      (r : PlaceBetRequest) (w : World S)
      → submissions (place_live x r w).1.calls ≤ suc x.max_placement_retries + submissions w.calls
  unfolding place_live
  place_live-submissions r w =
      rw (finish-calls r (attempts x r (suc x.max_placement_retries) 0 first_loop w))
        (attempts-submissions r (suc x.max_placement_retries) 0 first_loop w)

  place_reserved-submissions :
      (r : PlaceBetRequest) (w : World S)
      → submissions (place_reserved x r w).1.calls
        ≤ suc x.max_placement_retries + submissions w.calls
  unfolding place_reserved
  place_reserved-submissions r w =
      if_both
        (λ (p : BetExecutionResult × World S).
          submissions p.1.calls ≤ suc x.max_placement_retries + submissions w.calls)
        r.dry_run (rw (place_dry-calls r w) (omega arith)) (place_live-submissions r w)

  after_reserve-submissions :
      (r : PlaceBetRequest) (o : Outcome Bool × S) (cs : List AdapterCall)
      → submissions (after_reserve x r o cs).1.calls ≤ suc x.max_placement_retries + submissions cs
  unfolding after_reserve unexpected
  after_reserve-submissions r (threw e, s) cs = omega arith
  after_reserve-submissions r (returned false, s) cs = omega arith
  after_reserve-submissions r (returned true, s) cs = place_reserved-submissions r _

  -- A placement submits at most `maxPlacementRetries` + 1 times, whatever the adapter and the store
  -- answer.
  pub place_bet-submissions :
      (r : PlaceBetRequest) (w : World S)
      → submissions (place_bet x r w).1.calls ≤ suc x.max_placement_retries + submissions w.calls
  unfolding place_bet
  place_bet-submissions r w =
      after_reserve-submissions r (x.idempotency.reserve r.session_id r.round_id r.bet_id w.store)
        w.calls
