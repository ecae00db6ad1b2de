-- ===== src/Betting/Once.antt =====
-- How many submissions of executor.ts an adapter accepts.
use Prim.Native.Nat.{ℕ, zero, suc, ◌+◌, ◌≤◌}
use crash_wave.Prelude.{
  ◌≡◌, refl, Bool, true, false, ◌&&◌, not, some, String, List, [], ◌∷◌, ltb, arith, if_both,
}
use crash_wave.Betting.Types.{
  PlaceBetRequest, Outcome, returned, threw, Done, BetPlacementAdapter, BetExecutionResult,
}
use crash_wave.Betting.Executor.{
  BetExecutor, accepted, call, success, AdapterCall, submit_bet, wait_for_confirmation, Loop,
  first_loop, Step, again, stop, LoopEnd, World, says_timed_out, caught, after, completed, awaited,
  submitted, try_attempt, attempts, place_live, place_reserved, after_reserve, place_bet,
  unexpected,
}
use crash_wave.Betting.Attempts.{finish-calls, place_dry-calls}

abbrev landed : Outcome Bool → ℕ
landed (returned true) = 1
landed _ = 0

-- The submissions among some calls that the adapter accepted.
abbrev pub bets_landed : BetPlacementAdapter → PlaceBetRequest → List AdapterCall → ℕ
bets_landed a r [] = 0
bets_landed a r (submit_bet n ∷ cs) = landed (a.submit_bet r n) + bets_landed a r cs
bets_landed a r (wait_for_confirmation n ∷ cs) = bets_landed a r cs

-- A confirmation that came, or an error that is no timeout.
abbrev pub is_certain : Outcome Bool → Bool
is_certain (returned b) = b
is_certain (threw e) = not (says_timed_out e)

abbrev pub is_quiet : Outcome Done → Bool
is_quiet (returned _) = true
is_quiet (threw e) = not (says_timed_out e)

caught-certain :
    (e : String) (l : Loop)
    → not (says_timed_out e) ≡ true
    → caught e (accepted l)
      ≡ stop (record l { last_error = some e; external_side_effect_attempted = true })
unfolding caught
caught-certain e l h = rw h refl

caught-free :
    (e : String) (l : Loop)
    → l.external_side_effect_attempted ≡ false
    → caught e l ≡ again (record l { last_error = some e; external_side_effect_attempted = false })
unfolding caught
caught-free e l h = rw h refl

module _ {S : Type 0} (x : BetExecutor S) (r : PlaceBetRequest)
    (certain : (n : ℕ) → is_certain (x.adapter.wait_for_confirmation r.bet_id n) ≡ true)
    (quiet : (s : S)
      → is_quiet (x.idempotency.complete r.session_id r.round_id (success r) s).0 ≡ true) where
  abbrev total : List AdapterCall → ℕ
  total = bets_landed x.adapter r

  -- What an attempt from `b` accepted submissions leaves behind.
  abbrev Fresh : Step × World S → ℕ → Type 0
  Fresh (again l, w) b = (total w.calls ≡ b) × (l.external_side_effect_attempted ≡ false)
  Fresh (_, w) b = total w.calls ≤ suc b

  completed-Fresh :
      (o : Outcome Done × S) (l : Loop) (cs : List AdapterCall) (b : ℕ)
      → is_quiet o.0 ≡ true
      → total cs ≤ suc b
      → Fresh (completed x o (accepted l) cs) b
  unfolding completed
  completed-Fresh (returned _, s) l cs b q h = h
  completed-Fresh (threw e, s) l cs b q h = rw (caught-certain e l q) h

  awaited-Fresh :
      (o : Outcome Bool) (l : Loop) (w : World S) (b : ℕ)
      → is_certain o ≡ true
      → total w.calls ≤ suc b
      → Fresh (awaited x r o (accepted l) w) b
  unfolding awaited
  awaited-Fresh (threw e) l w b c h = rw (caught-certain e l c) h
  awaited-Fresh (returned true) l w b c h =
      completed-Fresh (x.idempotency.complete r.session_id r.round_id (success r) w.store) l w.calls
        b (quiet w.store) h
  awaited-Fresh (returned false) l w b c h = cc

  submitted-Fresh :
      (n : ℕ) (o : Outcome Bool) (l : Loop) (w : World S) (b : ℕ)
      → l.external_side_effect_attempted ≡ false
      → total w.calls ≡ landed o + b
      → Fresh (submitted x r n o l w) b
  unfolding submitted
  submitted-Fresh n (threw e) l w b f h = rw (caught-free e l f) (omega (arith, h), refl)
  submitted-Fresh n (returned false) l w b f h = (omega (arith, h), f)
  submitted-Fresh n (returned true) l w b f h =
      awaited-Fresh (x.adapter.wait_for_confirmation r.bet_id n) l
        (call (wait_for_confirmation n) w) b (certain n) (omega (arith, h))

  try_attempt-Fresh :
      (n : ℕ) (l : Loop) (w : World S)
      → l.external_side_effect_attempted ≡ false
      → Fresh (try_attempt x r n l w) (total w.calls)
  unfolding try_attempt
  try_attempt-Fresh n l w f =
      submitted-Fresh n (x.adapter.submit_bet r n) l (call (submit_bet n) w) (total w.calls) f refl

  after-Fresh :
      (p : Step × World S) (go : Loop → World S → LoopEnd × World S) (b : ℕ)
      → Fresh p b
      → ((l : Loop) (w : World S)
          → l.external_side_effect_attempted ≡ false
          → total (go l w).1.calls ≤ suc (total w.calls))
      → total (after p go).1.calls ≤ suc b
  after-Fresh (again l, w) go b h k = omega (arith, k l w h.1, h.0)
  after-Fresh (stop l, w) go b h k = h
  after-Fresh (Step.placed l, w) go b h k = h

  attempts-total :
      (left n : ℕ) (l : Loop) (w : World S)
      → l.external_side_effect_attempted ≡ false
      → total (attempts x r left n l w).1.calls ≤ suc (total w.calls)
  unfolding attempts
  attempts-total zero n l w f = omega arith
  attempts-total (suc left) n l w f =
      if_both (λ (p : LoopEnd × World S). total p.1.calls ≤ suc (total w.calls))
        (ltb 0 n && l.external_side_effect_attempted) (omega arith)
        (after-Fresh (try_attempt x r n (record l { retry_count = n }) w)
          (attempts x r left (suc n)) (total w.calls)
          (try_attempt-Fresh n (record l { retry_count = n }) w f) (attempts-total left (suc n)))

  place_live-total : (w : World S) → total (place_live x r w).1.calls ≤ suc (total w.calls)
  unfolding place_live
  place_live-total w =
      rw (finish-calls x r (attempts x r (suc x.max_placement_retries) 0 first_loop w))
        (attempts-total (suc x.max_placement_retries) 0 first_loop w refl)

  after_reserve-total :
      (o : Outcome Bool × S) (cs : List AdapterCall)
      → total (after_reserve x r o cs).1.calls ≤ suc (total cs)
  unfolding after_reserve unexpected place_reserved
  after_reserve-total (threw e, s) cs = omega arith
  after_reserve-total (returned false, s) cs = omega arith
  after_reserve-total (returned true, s) cs =
      let w : World S = record { store = s; calls = cs } in
      if_both (λ (p : BetExecutionResult × World S). total p.1.calls ≤ suc (total cs)) r.dry_run
        (rw (place_dry-calls x r w) (omega arith)) (place_live-total w)

  -- When every confirmation either comes or fails with an error that is no timeout, and the store
  -- never fails with a timeout when it completes a record, a placement has at most one accepted
  -- submission, whatever the submissions answer.
  pub place_bet-landed : (w : World S) → total (place_bet x r w).1.calls ≤ suc (total w.calls)
  unfolding place_bet
  place_bet-landed w =
      after_reserve-total (x.idempotency.reserve r.session_id r.round_id r.bet_id w.store) w.calls
