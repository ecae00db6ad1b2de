-- ===== src/Betting/Executor.antt =====
-- src/betting/executor.ts, `placeBet`. The mutex makes placements run one at a time, so that a
-- placement is a function of the store; it also returns the calls that the adapter got, the last
-- first, and its result. Logging and delays are left out.
use Prim.Native.Nat.{ℕ, zero, suc, ◌+◌}
use Prim.Native.Char.{code}
use crash_wave.Prelude.{
  Bool, true, false, not, ◌&&◌, ◌||◌, Option, none, some, String, List, ◌∷◌, ltb, leb, ◌==◌,
  if◌then◌else◌, or_else,
}
use crash_wave.Betting.Types.{
  PlaceBetRequest, confirmed, unknown, failed, BetExecutionResult, BetPlacementResult, Outcome,
  returned, threw, Done, BetPlacementAdapter,
}
use crash_wave.Betting.Idempotency.{IdempotencyKeyStore}

-- `/timed out/i.test(message)`: letters compare without their case.
abbrev fold_case : ℕ → ℕ
fold_case n = if leb 65 n && leb n 90 then n + 32 else n

begins_folded : String → String → Bool
begins_folded String.[] s = true
begins_folded (String.◌∷◌ c t) String.[] = false
begins_folded (String.◌∷◌ c t) (String.◌∷◌ d s) =
    fold_case (code c) == fold_case (code d) && begins_folded t s

contains_folded : String → String → Bool
contains_folded t String.[] = begins_folded t String.[]
contains_folded t (String.◌∷◌ c s) = begins_folded t (String.◌∷◌ c s) || contains_folded t s

unfoldable pub says_timed_out : String → Bool
unfolding begins_folded contains_folded
says_timed_out = contains_folded "timed out"

pub data AdapterCall : Type 0 where
  submit_bet wait_for_confirmation : ℕ → AdapterCall

-- The variables of the loop over the attempts.
pub record Loop : Type 0 where
  pub last_error : Option String
  pub retry_count : ℕ
  pub external_side_effect_attempted : Bool

abbrev pub first_loop : Loop
first_loop = record { last_error = none; retry_count = 0; external_side_effect_attempted = false }

-- How the body of the loop ends: with `return`, with `continue`, or with `break`.
pub data Step : Type 0 where
  placed : Loop → Step
  again stop : Loop → Step

-- How the loop ends.
pub data LoopEnd : Type 0 where
  placed gave_up : Loop → LoopEnd

-- The `catch` inside the loop: a timeout clears the flag, and a set flag breaks.
unfoldable pub caught : String → Loop → Step
unfolding says_timed_out
caught e l =
    let l' = record l {
      last_error = some e;
      external_side_effect_attempted = l.external_side_effect_attempted && not (says_timed_out e);
    } in
    if l'.external_side_effect_attempted then stop l' else again l'

-- The store, and the calls that the adapter got.
pub record World (S : Type 0) : Type 0 where
  pub store : S
  pub calls : List AdapterCall

abbrev pub call : {S : Type 0} → AdapterCall → World S → World S
call c w = record w { calls = c ∷ w.calls }

abbrev pub failure : Option String → ℕ → BetExecutionResult
failure e n = record { is_placed = false; state = failed; error = e; retry_count = n }

abbrev pub unknown_result : String → ℕ → BetExecutionResult
unknown_result e n = record { is_placed = false; state = unknown; error = some e; retry_count = n }

abbrev pub confirmed_result : ℕ → BetExecutionResult
confirmed_result n = record { is_placed = true; state = confirmed; error = none; retry_count = n }

abbrev pub success : PlaceBetRequest → BetPlacementResult
success r = record { success = true; bet_id = some r.bet_id; error = none }

abbrev pub final_error : Loop → String
final_error l = or_else l.last_error (
    if l.external_side_effect_attempted
    then "Bet placement outcome unknown after external submission"
    else "Bet placement failed after all retries")

-- What an attempt does with its end: the next attempt runs on `continue` alone.
abbrev pub after :
    {S : Type 0} → Step × World S → (Loop → World S → LoopEnd × World S) → LoopEnd × World S
after (placed l, w) go = (placed l, w)
after (again l, w) go = go l w
after (stop l, w) go = (gave_up l, w)

-- The fields of the class. `config` is its `maxPlacementRetries`; delays take no part.
pub record BetExecutor (S : Type 0) : Type 0 where
  pub idempotency : IdempotencyKeyStore S
  pub adapter : BetPlacementAdapter
  pub max_placement_retries : ℕ

abbrev pub accepted : Loop → Loop
accepted l = record l { external_side_effect_attempted = true }

module _ {S : Type 0} (x : BetExecutor S) where
  unfoldable pub completed : Outcome Done × S → Loop → List AdapterCall → Step × World S
  unfolding caught
  completed (returned _, s) l cs = (placed l, record { store = s; calls = cs })
  completed (threw e, s) l cs = (caught e l, record { store = s; calls = cs })

  -- What follows the wait for the confirmation.
  unfoldable pub awaited : PlaceBetRequest → Outcome Bool → Loop → World S → Step × World S
  awaited r (threw e) l w = (caught e l, w)
  awaited r (returned true) l w =
      completed (x.idempotency.complete r.session_id r.round_id (success r) w.store) l w.calls
  awaited r (returned false) l w = (
    again (record l {
      last_error = some "Bet was submitted but confirmation was not received";
      external_side_effect_attempted = false;
    }),
    w,
  )

  -- What follows the submission of the attempt of a number.
  unfoldable pub submitted : PlaceBetRequest → ℕ → Outcome Bool → Loop → World S → Step × World S
  unfolding awaited
  submitted r n (threw e) l w = (caught e l, w)
  submitted r n (returned false) l w =
      (again (record l { last_error = some "Bet submission rejected by adapter" }), w)
  submitted r n (returned true) l w =
      awaited r (x.adapter.wait_for_confirmation r.bet_id n) (accepted l)
        (call (wait_for_confirmation n) w)

  unfoldable pub try_attempt : PlaceBetRequest → ℕ → Loop → World S → Step × World S
  unfolding submitted
  try_attempt r n l w = submitted r n (x.adapter.submit_bet r n) l (call (submit_bet n) w)

  -- The attempts that are left, from the attempt of a number on.
  unfoldable pub attempts : PlaceBetRequest → ℕ → ℕ → Loop → World S → LoopEnd × World S
  unfolding try_attempt
  attempts r zero n l w = (gave_up l, w)
  attempts r (suc left) n l w =
      if ltb 0 n && l.external_side_effect_attempted
      then (gave_up l, w)
      else after (try_attempt r n (record l { retry_count = n }) w) (attempts r left (suc n))

  -- The `catch` around everything: an error of `fail` itself is dropped.
  unfoldable pub unexpected : PlaceBetRequest → String → World S → BetExecutionResult × World S
  unexpected r e w = (
    failure (some e) 0,
    record w { store = (x.idempotency.fail r.session_id r.round_id e w.store).1 },
  )

  unfoldable pub recorded :
      PlaceBetRequest
      → BetExecutionResult
      → Outcome Done × S
      → List AdapterCall
      → BetExecutionResult × World S
  recorded r result (returned _, s) cs = (result, record { store = s; calls = cs })
  recorded r result (threw e, s) cs = unexpected r e (record { store = s; calls = cs })

  -- `markUnknown`, with `fail` behind it when it throws.
  unfoldable pub mark_or_fail : PlaceBetRequest → String → Outcome Done × S → Outcome Done × S
  mark_or_fail r e (returned d, s) = (returned d, s)
  mark_or_fail r e (threw _, s) = x.idempotency.fail r.session_id r.round_id e s

  unfoldable pub finish : PlaceBetRequest → LoopEnd × World S → BetExecutionResult × World S
  finish r (placed l, w) = (confirmed_result l.retry_count, w)
  finish r (gave_up l, w) =
      if l.external_side_effect_attempted
      then recorded r (unknown_result (final_error l) l.retry_count)
          (mark_or_fail r (final_error l)
            (x.idempotency.mark_unknown r.session_id r.round_id (final_error l) w.store))
          w.calls
      else recorded r (failure (some (final_error l)) l.retry_count)
          (x.idempotency.fail r.session_id r.round_id (final_error l) w.store) w.calls

  -- A dry run is confirmed without the adapter.
  unfoldable pub place_dry : PlaceBetRequest → World S → BetExecutionResult × World S
  unfolding recorded
  place_dry r w =
      recorded r (confirmed_result 0)
        (x.idempotency.complete r.session_id r.round_id (success r) w.store) w.calls

  unfoldable pub place_live : PlaceBetRequest → World S → BetExecutionResult × World S
  unfolding attempts finish
  place_live r w = finish r (attempts r (suc x.max_placement_retries) 0 first_loop w)

  -- A placement whose key is reserved.
  unfoldable pub place_reserved : PlaceBetRequest → World S → BetExecutionResult × World S
  unfolding place_dry place_live
  place_reserved r w = if r.dry_run then place_dry r w else place_live r w

  unfoldable pub after_reserve :
      PlaceBetRequest → Outcome Bool × S → List AdapterCall → BetExecutionResult × World S
  unfolding place_reserved
  after_reserve r (threw e, s) cs = unexpected r e (record { store = s; calls = cs })
  after_reserve r (returned false, s) cs = (
    failure (some "Duplicate bet attempt blocked by idempotency check") 0,
    record { store = s; calls = cs },
  )
  after_reserve r (returned true, s) cs = place_reserved r (record { store = s; calls = cs })

  unfoldable pub place_bet : PlaceBetRequest → World S → BetExecutionResult × World S
  unfolding after_reserve
  place_bet r w =
      after_reserve r (x.idempotency.reserve r.session_id r.round_id r.bet_id w.store) w.calls
