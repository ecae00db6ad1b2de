-- ===== src/Emergency/Stop.antt =====
-- src/core/emergency-stop.ts over any repository of bets. Of the executors that `trigger` stops, and
-- of the event bus, only how the calls end is kept; logging and the DOM selector are left out.
use crash_wave.Prelude.{
  ℕ, ◌+◌, String, Option, none, some, Bool, true, false, List, [], ◌∷◌, ◌++◌, if◌then◌else◌,
}
use crash_wave.Betting.Types.{pending, reserved, failed, unknown, Outcome, returned, threw}
use crash_wave.Bets.Types.{BetRecord}
use crash_wave.Bets.Memory.{state_change}
use crash_wave.Bets.Store.{BetStore}

pub data EmergencyStopState : Type 0 where
  armed triggered resetting idle : EmergencyStopState

-- Why a result was given: the reason of the call, a repeated call, or an error on the way.
pub data StopReason : Type 0 where
  asked : String → StopReason
  already_triggered : String → StopReason
  execution_error : String → String → StopReason

pub record EmergencyStopResult : Type 0 where
  pub triggered : Bool
  pub state : EmergencyStopState
  pub halted_executors : Bool
  pub cancelled_pending_bets : ℕ
  pub preserved_state : Bool
  pub operator_notified : Bool
  pub reason : StopReason

pub record EmergencyStopConfig : Type 0 where
  pub attempt_cancel_pending : Bool
  pub preserve_state : Bool
  pub notify_operator : Bool

pub record EmergencyStop (S : Type 0) : Type 0 where
  pub state : EmergencyStopState
  pub last_result : Option EmergencyStopResult
  pub trigger_reason : Option String
  pub store : S

-- How the calls of the two executors and of the event bus end.
pub record StopEnv : Type 0 where
  pub stop_executors : Outcome (Unit {0})
  pub emit_critical_error : Outcome (Unit {0})
  pub emit_system_paused : Outcome (Unit {0})

abbrev pub is_triggered_state : EmergencyStopState → Bool
is_triggered_state EmergencyStopState.triggered = true
is_triggered_state _ = false

abbrev pub is_triggered : {S : Type 0} → EmergencyStop S → Bool
is_triggered e = is_triggered_state e.state

abbrev pub cancelled_reason : String
cancelled_reason = "Cancelled by emergency stop"

module _ {S : Type 0} (repo : BetStore S) where
  unfoldable pub counted : Outcome (Option BetRecord) → ℕ → ℕ
  counted (returned o) n = n + 1
  counted (threw m) n = n

  -- An update that throws is logged and not counted.
  unfoldable pub cancel_each : List BetRecord → ℕ → S → ℕ × S
  unfolding counted
  cancel_each [] n s = (n, s)
  cancel_each (b ∷ bs) n s =
      let (o, s') = repo.update b.id (state_change failed (some cancelled_reason)) s in
      cancel_each bs (counted o n) s'

  unfoldable pub cancel_reserved : List BetRecord → Outcome (List BetRecord) → S → ℕ × S
  cancel_reserved ps (threw m) s = (0, s)
  cancel_reserved ps (returned rs) s = cancel_each (ps ++ rs) 0 s

  unfoldable pub cancel_found : Outcome (List BetRecord) → S → ℕ × S
  cancel_found (threw m) s = (0, s)
  cancel_found (returned ps) s = cancel_reserved ps (repo.find_by_state reserved 100 s) s

  unfoldable pub cancel_pending_bets : S → ℕ × S
  unfolding cancel_found cancel_reserved
  cancel_pending_bets s = cancel_found (repo.find_by_state pending 100 s) s

  unfoldable pub both_read : Outcome (List BetRecord) → Outcome (List BetRecord) → Bool
  both_read (returned _) (returned _) = true
  both_read _ _ = false

  unfoldable pub preserve_system_state : S → Bool
  unfolding both_read
  preserve_system_state s = both_read (repo.find_active_bets s) (repo.find_by_state unknown 100 s)

  abbrev pub result :
      EmergencyStopConfig → Bool → ℕ → Bool → Bool → StopReason → EmergencyStopResult
  result c halted n preserved notified why = record {
    triggered = true;
    state = EmergencyStopState.triggered;
    halted_executors = halted;
    cancelled_pending_bets = n;
    preserved_state = preserved;
    operator_notified = notified;
    reason = why;
  }

  abbrev pub remember :
      EmergencyStopResult → EmergencyStop S → S → EmergencyStopResult × EmergencyStop S
  remember r e s = (r, record e { last_result = some r; store = s })

  -- The two events of step 4, with what the `catch` does to either error.
  unfoldable pub emitted :
      Outcome (Unit {0})
      → Outcome (Unit {0})
      → EmergencyStopConfig
      → String
      → ℕ
      → Bool
      → EmergencyStopResult
  emitted (threw m) _ c why n kept = result c true n kept false (execution_error why m)
  emitted (returned _) (threw m) c why n kept = result c true n kept false (execution_error why m)
  emitted (returned _) (returned _) c why n kept =
      result c true n kept c.notify_operator (asked why)

  unfoldable pub halted :
      EmergencyStopConfig
      → StopEnv
      → String
      → EmergencyStop S
      → EmergencyStopResult × EmergencyStop S
  unfolding emitted
  halted c env why e =
      let (n, s) = if c.attempt_cancel_pending then cancel_pending_bets e.store else (0, e.store) in
      let kept = if c.preserve_state then preserve_system_state s else false in
      remember (emitted env.emit_critical_error env.emit_system_paused c why n kept) e s

  unfoldable pub by_executors :
      Outcome (Unit {0})
      → EmergencyStopConfig
      → StopEnv
      → String
      → EmergencyStop S
      → EmergencyStopResult × EmergencyStop S
  unfolding halted
  by_executors (threw m) c env why e =
      remember (result c false 0 false false (execution_error why m)) e e.store
  by_executors (returned _) c env why e = halted c env why e

  unfoldable pub trigger :
      EmergencyStopConfig
      → StopEnv
      → String
      → EmergencyStop S
      → EmergencyStopResult × EmergencyStop S
  unfolding by_executors
  trigger c env why e =
      if is_triggered e
      then (result c false 0 false false (already_triggered why), e)
      else by_executors env.stop_executors c env why
          (record e { state = EmergencyStopState.triggered; trigger_reason = some why })

  unfoldable pub reset : EmergencyStop S → EmergencyStop S
  reset e =
      if is_triggered e
      then record e { state = EmergencyStopState.armed; trigger_reason = none }
      else e
