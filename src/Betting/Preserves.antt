-- ===== src/Betting/Preserves.antt =====
-- Properties of a store that its methods keep, across `placeBet` of executor.ts.
use Prim.Native.Nat.{ℕ, zero, suc}
use crash_wave.Prelude.{Bool, true, false, ◌&&◌, String, List, ltb, if_both}
use crash_wave.Betting.Types.{
  PlaceBetRequest, Outcome, returned, threw, Done, BetExecutionResult, BetPlacementResult,
}
use crash_wave.Betting.Idempotency.{IdempotencyKeyStore}
use crash_wave.Betting.Executor.{
  BetExecutor, accepted, call, success, AdapterCall, submit_bet, wait_for_confirmation, Loop,
  first_loop, Step, again, stop, gave_up, LoopEnd, World, after, completed, awaited, submitted,
  try_attempt, attempts, finish, place_dry, place_live, place_reserved, after_reserve, place_bet,
  recorded, unexpected, mark_or_fail,
}

-- Every method of a store keeps a property of its state.
pub record Keeps (S : Type 0) (store : IdempotencyKeyStore S) (P : S → Type 0) : Type 0 where
  pub reserve_keeps : (s r b : String) (m : S) → P m → P (store.reserve s r b m).1
  pub complete_keeps :
      (s r : String) (b : BetPlacementResult) (m : S) → P m → P (store.complete s r b m).1
  pub fail_keeps : (s r e : String) (m : S) → P m → P (store.fail s r e m).1
  pub mark_unknown_keeps : (s r e : String) (m : S) → P m → P (store.mark_unknown s r e m).1

module _ {S : Type 0} (x : BetExecutor S) (P : S → Type 0) (keeps : Keeps S x.idempotency P)
    (r : PlaceBetRequest) where
  completed-keeps :
      (o : Outcome Done × S) (l : Loop) (cs : List AdapterCall)
      → P o.1
      → P (completed x o l cs).1.store
  unfolding completed
  completed-keeps (returned _, s) l cs h = h
  completed-keeps (threw e, s) l cs h = h

  awaited-keeps :
      (o : Outcome Bool) (l : Loop) (w : World S) → P w.store → P (awaited x r o l w).1.store
  unfolding awaited
  awaited-keeps (threw e) l w h = h
  awaited-keeps (returned false) l w h = h
  awaited-keeps (returned true) l w h =
      completed-keeps (x.idempotency.complete r.session_id r.round_id (success r) w.store) l w.calls
        (keeps.complete_keeps r.session_id r.round_id (success r) w.store h)

  submitted-keeps :
      (n : ℕ) (o : Outcome Bool) (l : Loop) (w : World S)
      → P w.store
      → P (submitted x r n o l w).1.store
  unfolding submitted
  submitted-keeps n (threw e) l w h = h
  submitted-keeps n (returned false) l w h = h
  submitted-keeps n (returned true) l w h =
      awaited-keeps (x.adapter.wait_for_confirmation r.bet_id n) (accepted l)
        (call (wait_for_confirmation n) w) h

  after-keeps :
      (p : Step × World S) (go : Loop → World S → LoopEnd × World S)
      → P p.1.store
      → ((l : Loop) (w : World S) → P w.store → P (go l w).1.store)
      → P (after p go).1.store
  after-keeps (again l, w) go h k = k l w h
  after-keeps (stop l, w) go h k = h
  after-keeps (Step.placed l, w) go h k = h

  pub attempts-keeps :
      (left n : ℕ) (l : Loop) (w : World S) → P w.store → P (attempts x r left n l w).1.store
  unfolding attempts try_attempt
  attempts-keeps zero n l w h = h
  attempts-keeps (suc left) n l w h =
      let l' : Loop = record l { retry_count = n } in
      if_both (λ (p : LoopEnd × World S). P p.1.store) (ltb 0 n && l.external_side_effect_attempted)
        h
        (after-keeps (try_attempt x r n l' w) (attempts x r left (suc n))
          (submitted-keeps n (x.adapter.submit_bet r n) l' (call (submit_bet n) w) h)
          (attempts-keeps left (suc n)))

  recorded-keeps :
      (q : BetExecutionResult) (o : Outcome Done × S) (cs : List AdapterCall)
      → P o.1
      → P (recorded x r q o cs).1.store
  unfolding recorded unexpected
  recorded-keeps q (returned _, s) cs h = h
  recorded-keeps q (threw e, s) cs h = keeps.fail_keeps r.session_id r.round_id e s h

  mark_or_fail-keeps : (e : String) (o : Outcome Done × S) → P o.1 → P (mark_or_fail x r e o).1
  unfolding mark_or_fail
  mark_or_fail-keeps e (returned d, s) h = h
  mark_or_fail-keeps e (threw _, s) h = keeps.fail_keeps r.session_id r.round_id e s h

  finish-keeps : (p : LoopEnd × World S) → P p.1.store → P (finish x r p).1.store
  unfolding finish
  finish-keeps (LoopEnd.placed l, w) h = h
  finish-keeps (gave_up l, w) h =
      if_both (λ (p : BetExecutionResult × World S). P p.1.store) l.external_side_effect_attempted
        (recorded-keeps _ _ w.calls
          (mark_or_fail-keeps _ _ (keeps.mark_unknown_keeps r.session_id r.round_id _ w.store h)))
        (recorded-keeps _ _ w.calls (keeps.fail_keeps r.session_id r.round_id _ w.store h))

  after_reserve-keeps :
      (o : Outcome Bool × S) (cs : List AdapterCall) → P o.1 → P (after_reserve x r o cs).1.store
  unfolding after_reserve unexpected place_reserved place_dry place_live
  after_reserve-keeps (threw e, s) cs h = keeps.fail_keeps r.session_id r.round_id e s h
  after_reserve-keeps (returned false, s) cs h = h
  after_reserve-keeps (returned true, s) cs h =
      if_both (λ (p : BetExecutionResult × World S). P p.1.store) r.dry_run
        (recorded-keeps _ _ cs (keeps.complete_keeps r.session_id r.round_id (success r) s h))
        (finish-keeps (attempts x r (suc x.max_placement_retries) 0 first_loop _)
          (attempts-keeps (suc x.max_placement_retries) 0 first_loop _ h))

  pub place_bet-keeps : (w : World S) → P w.store → P (place_bet x r w).1.store
  unfolding place_bet
  place_bet-keeps w h =
      after_reserve-keeps (x.idempotency.reserve r.session_id r.round_id r.bet_id w.store) w.calls
        (keeps.reserve_keeps r.session_id r.round_id r.bet_id w.store h)

  -- What holds as soon as the key is reserved, holds behind the placement.
  pub place_bet-reserved :
      (w : World S)
      → P (x.idempotency.reserve r.session_id r.round_id r.bet_id w.store).1
      → P (place_bet x r w).1.store
  unfolding place_bet
  place_bet-reserved w =
      after_reserve-keeps (x.idempotency.reserve r.session_id r.round_id r.bet_id w.store) w.calls
