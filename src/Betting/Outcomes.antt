-- ===== src/Betting/Outcomes.antt =====
-- What an answer of `placeBet` says of the adapter's answers.
use Prim.Native.Nat.{ℕ, zero, suc}
use crash_wave.Prelude.{
  ◌≡◌, ◌≢◌, refl, Bool, true, false, ◌&&◌, not, String, List, ltb, if_both, if_cases,
}
use mathlib.Core.Path.{subst}
use crash_wave.Betting.Types.{
  PlaceBetRequest, Outcome, returned, threw, Done, done, BetExecutionResult, BetState,
}
use crash_wave.Betting.Executor.{
  BetExecutor, accepted, call, success, AdapterCall, submit_bet, wait_for_confirmation, Loop,
  first_loop, Step, again, stop, gave_up, LoopEnd, World, says_timed_out, caught, after, completed,
  awaited, submitted, try_attempt, attempts, finish, place_live, place_reserved, after_reserve,
  place_bet, recorded, unexpected,
}

module _ {S : Type 0} (x : BetExecutor S) (r : PlaceBetRequest) where
  -- Some attempt was accepted and confirmed.
  abbrev pub Confirmed : Type 0
  Confirmed =
      (n : ℕ) × (x.adapter.submit_bet r n ≡ returned true)
      × (x.adapter.wait_for_confirmation r.bet_id n ≡ returned true)

  -- Some attempt was accepted, and the adapter did not deny it.
  abbrev pub Undenied : Type 0
  Undenied =
      (n : ℕ) × (x.adapter.submit_bet r n ≡ returned true)
      × (x.adapter.wait_for_confirmation r.bet_id n ≢ returned false)

  abbrev Doubt : Bool → Type 0
  Doubt true = Undenied
  Doubt false = Done

  abbrev StepTold : Step → Type 0
  StepTold (Step.placed l) = Confirmed
  StepTold (again l) = Doubt l.external_side_effect_attempted
  StepTold (stop l) = Doubt l.external_side_effect_attempted

  abbrev EndTold : LoopEnd → Type 0
  EndTold (LoopEnd.placed l) = Confirmed
  EndTold (gave_up l) = Doubt l.external_side_effect_attempted

  Doubt-and : (a b : Bool) → Doubt a → Doubt (a && b)
  Doubt-and true true d = d
  Doubt-and true false d = done
  Doubt-and false b d = d

  caught-told :
      (e : String) (l : Loop) → Doubt l.external_side_effect_attempted → StepTold (caught e l)
  unfolding caught
  caught-told e l d =
      let kept = Doubt-and l.external_side_effect_attempted (not (says_timed_out e)) d in
      if_both StepTold (l.external_side_effect_attempted && not (says_timed_out e)) kept kept

  completed-told :
      (o : Outcome Done × S) (l : Loop) (cs : List AdapterCall)
      → Confirmed
      → StepTold (completed x o (accepted l) cs).0
  unfolding completed
  completed-told (returned _, s) l cs c = c
  completed-told (threw e, s) l cs (n, a, b) = caught-told e (accepted l) (n, a, λ p. cc)

  awaited-told :
      (n : ℕ) (o : Outcome Bool) (l : Loop) (w : World S)
      → x.adapter.submit_bet r n ≡ returned true
      → x.adapter.wait_for_confirmation r.bet_id n ≡ o
      → StepTold (awaited x r o (accepted l) w).0
  unfolding awaited
  awaited-told n (threw e) l w a b = caught-told e (accepted l) (n, a, λ p. cc)
  awaited-told n (returned false) l w a b = done
  awaited-told n (returned true) l w a b =
      completed-told (x.idempotency.complete r.session_id r.round_id (success r) w.store) l w.calls
        (n, a, b)

  submitted-told :
      (n : ℕ) (o : Outcome Bool) (l : Loop) (w : World S)
      → x.adapter.submit_bet r n ≡ o
      → Doubt l.external_side_effect_attempted
      → StepTold (submitted x r n o l w).0
  unfolding submitted
  submitted-told n (threw e) l w a d = caught-told e l d
  submitted-told n (returned false) l w a d = d
  submitted-told n (returned true) l w a d =
      awaited-told n (x.adapter.wait_for_confirmation r.bet_id n) l
        (call (wait_for_confirmation n) w) a refl

  after-told :
      (p : Step × World S) (go : Loop → World S → LoopEnd × World S)
      → StepTold p.0
      → ((l : Loop) (w : World S) → Doubt l.external_side_effect_attempted → EndTold (go l w).0)
      → EndTold (after p go).0
  after-told (again l, w) go d k = k l w d
  after-told (stop l, w) go d k = d
  after-told (Step.placed l, w) go d k = d

  attempts-told :
      (left n : ℕ) (l : Loop) (w : World S)
      → Doubt l.external_side_effect_attempted
      → EndTold (attempts x r left n l w).0
  unfolding attempts try_attempt
  attempts-told zero n l w d = d
  attempts-told (suc left) n l w d =
      let l' : Loop = record l { retry_count = n } in
      if_both (λ (p : LoopEnd × World S). EndTold p.0) (ltb 0 n && l.external_side_effect_attempted)
        d
        (after-told (try_attempt x r n l' w) (attempts x r left (suc n))
          (submitted-told n (x.adapter.submit_bet r n) l' (call (submit_bet n) w) refl d)
          (attempts-told left (suc n)))

  -- What the answer of a live placement says.
  abbrev pub ResultTold : BetState → Type 0
  ResultTold BetState.confirmed = Confirmed
  ResultTold BetState.unknown = Undenied
  ResultTold BetState.failed = Done
  ResultTold _ = Done

  recorded-told :
      (q : BetExecutionResult) (o : Outcome Done × S) (cs : List AdapterCall)
      → ResultTold q.state
      → ResultTold (recorded x r q o cs).0.state
  unfolding recorded unexpected
  recorded-told q (returned _, s) cs t = t
  recorded-told q (threw e, s) cs t = done

  finish-told : (p : LoopEnd × World S) → EndTold p.0 → ResultTold (finish x r p).0.state
  unfolding finish
  finish-told (LoopEnd.placed l, w) c = c
  finish-told (gave_up l, w) d =
      if_cases (λ (p : BetExecutionResult × World S). ResultTold p.0.state)
        l.external_side_effect_attempted (λ yes. recorded-told _ _ w.calls (subst Doubt yes d))
        (λ no. recorded-told _ _ w.calls done)

  after_reserve-told :
      (o : Outcome Bool × S) (cs : List AdapterCall)
      → r.dry_run ≡ false
      → ResultTold (after_reserve x r o cs).0.state
  unfolding after_reserve unexpected place_reserved place_live
  after_reserve-told (threw e, s) cs live = done
  after_reserve-told (returned false, s) cs live = done
  after_reserve-told (returned true, s) cs live =
      if_cases (λ (p : BetExecutionResult × World S). ResultTold p.0.state) r.dry_run (λ dry. cc)
        (λ _. finish-told _ (
          attempts-told (suc x.max_placement_retries) 0 first_loop
            (record { store = s; calls = cs }) done))

  -- A live placement that answers CONFIRMED had an accepted submission that was confirmed, and one
  -- that answers UNKNOWN had an accepted submission that was not denied.
  pub place_bet-told : (w : World S) → r.dry_run ≡ false → ResultTold (place_bet x r w).0.state
  unfolding place_bet
  place_bet-told w =
      after_reserve-told (x.idempotency.reserve r.session_id r.round_id r.bet_id w.store) w.calls
