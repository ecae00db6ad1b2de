-- ===== src/Emergency/Gate.antt =====
-- The gate of src/core/emergency-stop.ts: what `trigger` leaves behind, however its calls end.

use crash_wave.Prelude.{
  ℕ, ◌≡◌, refl, String, some, Bool, true, false, List, [], ◌∷◌, if_cases, if◌then◌else◌,
}
use crash_wave.Betting.Types.{Outcome, returned, threw}
use crash_wave.Bets.Store.{BetStore}
use crash_wave.Emergency.Stop.{
  EmergencyStop, EmergencyStopState, EmergencyStopResult, EmergencyStopConfig, StopEnv,
  is_triggered, trigger, by_executors, halted, cancel_pending_bets, preserve_system_state, emitted,
}
use crash_wave.Emergency.Cancelled.{Cancelled, left_alone, cancel_pending_bets-Cancelled}

-- What a trigger guarantees: the gate is shut, the result says so, and of the stored bets only
-- those that waited to be placed may have changed.
abbrev pub Stopped :
    {S : Type 0} → BetStore S → EmergencyStop S → EmergencyStopResult × EmergencyStop S → Type 0
Stopped repo e (r, e') =
    (is_triggered e' ≡ true)
    × (r.triggered ≡ true)
    × ((j : String) → Cancelled (repo.look e.store j) (repo.look e'.store j))

module _ {S : Type 0} (repo : BetStore S) where
  maybe_cancel :
      (c : Bool) (s : S) (j : String)
      → Cancelled (repo.look s j) (repo.look (if c then cancel_pending_bets repo s else (0, s)).1 j)
  maybe_cancel true s j = cancel_pending_bets-Cancelled repo s j
  maybe_cancel false s j = left_alone refl

  emitted-triggered :
      (a b : Outcome (Unit {0})) (c : EmergencyStopConfig) (why : String) (n : ℕ) (kept : Bool)
      → (emitted repo a b c why n kept).triggered ≡ true
  unfolding emitted
  emitted-triggered (threw m) _ c why n kept = refl
  emitted-triggered (returned _) (threw m) c why n kept = refl
  emitted-triggered (returned _) (returned _) c why n kept = refl

  by_executors-Stopped :
      (o : Outcome (Unit {0})) (c : EmergencyStopConfig) (env : StopEnv) (why : String)
      (e : EmergencyStop S)
      → is_triggered e ≡ true
      → Stopped repo e (by_executors repo o c env why e)
  unfolding by_executors halted
  by_executors-Stopped (threw m) c env why e h = (h, refl, λ j. left_alone refl)
  by_executors-Stopped (returned _) c env why e h =
      let (n, s) =
        if c.attempt_cancel_pending then cancel_pending_bets repo e.store else (0, e.store) in
      (
        h,
        emitted-triggered env.emit_critical_error env.emit_system_paused c why n
            (if c.preserve_state then preserve_system_state repo s else false),
        λ j. maybe_cancel c.attempt_cancel_pending e.store j,
      )

  -- However the calls of a trigger end, it leaves the gate shut and says so, and every stored bet
  -- is as it was, unless it waited to be placed; such a bet may have failed, with the stop as its
  -- reason.
  pub trigger-Stopped :
      (c : EmergencyStopConfig) (env : StopEnv) (why : String) (e : EmergencyStop S)
      → Stopped repo e (trigger repo c env why e)
  unfolding trigger
  trigger-Stopped c env why e =
      if_cases (Stopped repo e) (is_triggered e)
        (λ (shut : is_triggered e ≡ true). (shut, refl, λ j. left_alone refl))
        (λ _.
          by_executors-Stopped env.stop_executors c env why
            (record e { state = EmergencyStopState.triggered; trigger_reason = some why }) refl)

  abbrev pub trigger_all :
      List (EmergencyStopConfig × StopEnv × String) → EmergencyStop S → EmergencyStop S
  trigger_all [] e = e
  trigger_all ((c, env, why) ∷ ts) e = trigger_all ts (trigger repo c env why e).1

  shut_unchanged :
      (c : EmergencyStopConfig) (env : StopEnv) (why : String) (e : EmergencyStop S)
      → is_triggered e ≡ true
      → (trigger repo c env why e).1 ≡ e
  unfolding trigger
  shut_unchanged c env why e h = rw h refl

  stays_shut :
      (ts : List (EmergencyStopConfig × StopEnv × String)) (e : EmergencyStop S)
      → is_triggered e ≡ true
      → trigger_all ts e ≡ e
  stays_shut [] e h = refl
  stays_shut ((c, env, why) ∷ ts) e h = rw (shut_unchanged c env why e h) (stays_shut ts e h)

  -- After one trigger, any number of further ones changes nothing: no bet, no state, no last result.
  pub trigger_all-trigger :
      (c : EmergencyStopConfig) (env : StopEnv) (why : String) (e : EmergencyStop S)
      (ts : List (EmergencyStopConfig × StopEnv × String))
      → trigger_all ts (trigger repo c env why e).1 ≡ (trigger repo c env why e).1
  trigger_all-trigger c env why e ts =
      stays_shut ts (trigger repo c env why e).1 (trigger-Stopped c env why e).0
