-- ===== src/Betting/Statuses.antt =====
-- The record that `placeBet` leaves in `InMemoryIdempotencyStore`.
use Prim.Native.Nat.{ℕ, zero, suc}
use crash_wave.Prelude.{
  ◌≡◌, refl, Bool, true, false, ◌&&◌, Option, none, some, String, ltb, not, is_some, get-set_key,
  if_both,
}
use crash_wave.Betting.Types.{
  PlaceBetRequest, BetState, BetPlacementAdapter, BetExecutionResult, BetPlacementResult, Outcome,
  returned, threw, IdempotencyStatus, IdempotencyRecord,
}
use crash_wave.Betting.Idempotency.{
  Records, generate_key, get_record, reserve_key, mark_found, failure,
}
use crash_wave.Betting.Executor.{
  BetExecutor, accepted, call, success, submit_bet, wait_for_confirmation, Loop, first_loop, Step,
  again, stop, gave_up, LoopEnd, World, after, caught, says_timed_out, completed, awaited,
  submitted, try_attempt, attempts, finish, place_dry, place_live, place_reserved, after_reserve,
  place_bet, recorded, mark_or_fail, final_error,
}
use crash_wave.Betting.Keys.{HasKey, executor}

abbrev pub status_of : BetState → IdempotencyStatus
status_of BetState.confirmed = IdempotencyStatus.completed
status_of BetState.unknown = IdempotencyStatus.unknown
status_of _ = IdempotencyStatus.failed

abbrev record_status : Option IdempotencyRecord → Option IdempotencyStatus
record_status none = none
record_status (some c) = some c.status

-- The status of a session and a round.
abbrev pub status_in : String → String → Records → Option IdempotencyStatus
status_in s r m = record_status (get_record s r m)

status_in-mark_found :
    (s r : String) (v : IdempotencyStatus) (b : BetPlacementResult) (o : Option IdempotencyRecord)
    (m : Records)
    → is_some o ≡ true
    → status_in s r (mark_found v b (generate_key s r) o m) ≡ some v
unfolding mark_found
status_in-mark_found s r v b none m h = cc
status_in-mark_found s r v b (some c) m h = rw (get-set_key (generate_key s r)) refl

module _ (now : ℕ) (adapter : BetPlacementAdapter) (max_placement_retries : ℕ)
    (r : PlaceBetRequest) where
  abbrev x : BetExecutor Records
  x = executor now adapter max_placement_retries

  abbrev Known : Records → Type 0
  Known = HasKey r.session_id r.round_id

  abbrev Completed : Records → Type 0
  Completed m = status_in r.session_id r.round_id m ≡ some IdempotencyStatus.completed

  abbrev StepKept : Step × World Records → Type 0
  StepKept (Step.placed l, w) = Completed w.store
  StepKept (_, w) = Known w.store

  abbrev EndKept : LoopEnd × World Records → Type 0
  EndKept (LoopEnd.placed l, w) = Completed w.store
  EndKept (gave_up l, w) = Known w.store

  caught-kept :
      (e : String) (l : Loop) (w : World Records) → Known w.store → StepKept (caught e l, w)
  unfolding caught
  caught-kept e l w h =
      if_both (λ (p : Step). StepKept (p, w))
        (l.external_side_effect_attempted && not (says_timed_out e)) h h

  awaited-kept :
      (o : Outcome Bool) (l : Loop) (w : World Records)
      → Known w.store
      → StepKept (awaited x r o l w)
  unfolding awaited completed
  awaited-kept (threw e) l w h = caught-kept e l w h
  awaited-kept (returned false) l w h = h
  awaited-kept (returned true) l w h =
      status_in-mark_found r.session_id r.round_id IdempotencyStatus.completed (success r)
        (get_record r.session_id r.round_id w.store) w.store h

  submitted-kept :
      (n : ℕ) (o : Outcome Bool) (l : Loop) (w : World Records)
      → Known w.store
      → StepKept (submitted x r n o l w)
  unfolding submitted
  submitted-kept n (threw e) l w h = caught-kept e l w h
  submitted-kept n (returned false) l w h = h
  submitted-kept n (returned true) l w h =
      awaited-kept (x.adapter.wait_for_confirmation r.bet_id n) (accepted l)
        (call (wait_for_confirmation n) w) h

  after-kept :
      (p : Step × World Records) (go : Loop → World Records → LoopEnd × World Records)
      → StepKept p
      → ((l : Loop) (w : World Records) → Known w.store → EndKept (go l w))
      → EndKept (after p go)
  after-kept (again l, w) go h k = k l w h
  after-kept (stop l, w) go h k = h
  after-kept (Step.placed l, w) go h k = h

  attempts-kept :
      (left n : ℕ) (l : Loop) (w : World Records)
      → Known w.store
      → EndKept (attempts x r left n l w)
  unfolding attempts try_attempt
  attempts-kept zero n l w h = h
  attempts-kept (suc left) n l w h =
      let l' : Loop = record l { retry_count = n } in
      if_both EndKept (ltb 0 n && l.external_side_effect_attempted) h (
        after-kept (try_attempt x r n l' w) (attempts x r left (suc n))
          (submitted-kept n (x.adapter.submit_bet r n) l' (call (submit_bet n) w) h)
          (attempts-kept left (suc n)))

  -- The record agrees with the answer.
  abbrev Agrees : BetExecutionResult × World Records → Type 0
  Agrees (q, w) = status_in r.session_id r.round_id w.store ≡ some (status_of q.state)

  finish-Agrees : (p : LoopEnd × World Records) → EndKept p → Agrees (finish x r p)
  unfolding finish recorded mark_or_fail
  finish-Agrees (LoopEnd.placed l, w) h = h
  finish-Agrees (gave_up l, w) h =
      if_both Agrees l.external_side_effect_attempted
        (status_in-mark_found r.session_id r.round_id IdempotencyStatus.unknown
          (failure (final_error l)) (get_record r.session_id r.round_id w.store) w.store h)
        (status_in-mark_found r.session_id r.round_id IdempotencyStatus.failed
          (failure (final_error l)) (get_record r.session_id r.round_id w.store) w.store h)

  place_reserved-Agrees : (w : World Records) → Known w.store → Agrees (place_reserved x r w)
  unfolding place_reserved place_dry place_live recorded
  place_reserved-Agrees w h =
      if_both Agrees r.dry_run
        (status_in-mark_found r.session_id r.round_id IdempotencyStatus.completed (success r)
          (get_record r.session_id r.round_id w.store) w.store h)
        (finish-Agrees (attempts x r (suc max_placement_retries) 0 first_loop w)
          (attempts-kept (suc max_placement_retries) 0 first_loop w h))

  reserved-Agrees :
      (o : Option IdempotencyRecord) (w : World Records)
      → o ≡ none
      → Agrees
          (after_reserve x r (reserve_key now r.session_id r.round_id r.bet_id o w.store) w.calls)
  unfolding after_reserve reserve_key
  reserved-Agrees (some c) w e = cc
  reserved-Agrees none w e =
      place_reserved-Agrees _ (rw (get-set_key (generate_key r.session_id r.round_id)) refl)

  -- Over the in-memory store, and when no cleanup comes in between, a placement of a session and a
  -- round without a record leaves one whose status says what the placement answered: COMPLETED for
  -- CONFIRMED, UNKNOWN for UNKNOWN and FAILED for FAILED.
  pub place_bet-status :
      (w : World Records)
      → get_record r.session_id r.round_id w.store ≡ none
      → status_in r.session_id r.round_id (place_bet x r w).1.store
        ≡ some (status_of (place_bet x r w).0.state)
  unfolding place_bet
  place_bet-status w e = reserved-Agrees (get_record r.session_id r.round_id w.store) w e
