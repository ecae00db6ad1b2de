-- ===== src/CashOut/Controller.antt =====
-- src/betting/cashout.ts, `CashOutController`. The monitor is a step on its state for each thing that
-- can happen to it: a tick, the crash, the answer of the cash-out in flight, the safety timeout and
-- an abort. Multipliers and profits are whole units of some precision. Timestamps and logging are
-- left out, and so is native auto cash-out, which leaves the monitor's state alone.
use Prim.Native.Nat.{ℕ, suc}
use crash_wave.Prelude.{
  Bool, true, false, not, ◌&&◌, ◌||◌, Option, none, some, String, List, [], ◌∷◌, leb, if◌then◌else◌,
  or_else, is_some,
}
use crash_wave.Betting.Types.{BetState, cashed_out, lost, failed, unknown, Outcome, returned, threw}

pub record CashOutResult : Type 0 where
  pub success : Bool
  pub multiplier : Option ℕ
  pub pnl : Option ℕ
  pub error : Option String

pub record CashOutMonitorResult : Type 0 where
  pub success : Bool
  pub final_state : BetState
  pub pnl : Option ℕ
  pub cash_out_multiplier : Option ℕ
  pub error : Option String

pub record CashOutControllerState : Type 0 where
  pub triggered : Bool
  pub confirmed : Bool
  pub triggered_at_multiplier : Option ℕ
  pub confirmed_at_multiplier : Option ℕ
  pub pnl : Option ℕ
  pub error : Option String

-- The controller with a running monitor. `resolution` is what its promise resolved to, `pending` the
-- promise of `executeCashOut` that has not answered yet, and `requests` counts its calls.
pub record Monitor : Type 0 where
  pub state : CashOutControllerState
  pub aborted : Bool
  pub cash_out_in_flight : Bool
  pub pending : Bool
  pub resolution : Option CashOutMonitorResult
  pub requests : ℕ

abbrev pub new_monitor : Monitor
new_monitor = record {
  state = record {
    triggered = false;
    confirmed = false;
    triggered_at_multiplier = none;
    confirmed_at_multiplier = none;
    pnl = none;
    error = none;
  };
  aborted = false;
  cash_out_in_flight = false;
  pending = false;
  resolution = none;
  requests = 0;
}

abbrev pub refused : String → CashOutResult
refused e = record { success = false; multiplier = none; pnl = none; error = some e }

-- `executeCashOut`, from the adapter's two answers: to the request, and to the wait for its
-- confirmation under the timeout.
unfoldable pub execute_cash_out : Outcome Bool → Outcome CashOutResult → CashOutResult
execute_cash_out (threw e) wait = refused e
execute_cash_out (returned false) wait = refused "Cash-out request was rejected by adapter"
execute_cash_out (returned true) (threw e) = refused e
execute_cash_out (returned true) (returned r) = r

-- `resolveOnce`
unfoldable pub resolve_once : CashOutMonitorResult → Monitor → Monitor
resolve_once r m = if is_some m.resolution then m else record m { resolution = some r }

-- Target reached, with no cash-out before.
abbrev pub should_trigger : ℕ → ℕ → Monitor → Bool
should_trigger target multiplier m =
    leb target multiplier && (not m.cash_out_in_flight && not m.state.triggered)

abbrev pub triggered_at : ℕ → Monitor → Monitor
triggered_at multiplier m = record m {
  state = record m.state { triggered = true; triggered_at_multiplier = some multiplier };
  cash_out_in_flight = true;
  pending = true;
  requests = suc m.requests;
}

unfoldable pub on_tick : ℕ → ℕ → Monitor → Monitor
on_tick target multiplier m =
    if is_some m.resolution || m.aborted
    then m
    else if should_trigger target multiplier m
    then triggered_at multiplier m
    else m

abbrev pub lost_result : CashOutMonitorResult
lost_result = record {
  success = false;
  final_state = lost;
  pnl = none;
  cash_out_multiplier = none;
  error = none;
}

unfoldable pub on_crash : Monitor → Monitor
unfolding resolve_once
on_crash m =
    if is_some m.resolution
    then m
    else if m.cash_out_in_flight
    then m
    else if m.state.triggered
    then m
    else resolve_once lost_result m

abbrev pub failed_result : String → CashOutMonitorResult
failed_result e = record {
  success = false;
  final_state = failed;
  pnl = none;
  cash_out_multiplier = none;
  error = some e;
}

-- The state behind a cash-out that succeeded.
abbrev pub confirmed_with : CashOutResult → Monitor → Monitor
confirmed_with r m = record m {
  state = record m.state { confirmed = true; confirmed_at_multiplier = r.multiplier; pnl = r.pnl };
}

abbrev pub failed_with : String → Monitor → Monitor
failed_with e m = record m { state = record m.state { error = some e } }

-- The `then` of `executeCashOut`, which catches every error itself.
unfoldable pub deliver : CashOutResult → Monitor → Monitor
unfolding resolve_once
deliver r m =
    if is_some m.resolution
    then m
    else if r.success
    then resolve_once
        (record {
          success = true;
          final_state = cashed_out;
          pnl = some (or_else r.pnl 0);
          cash_out_multiplier = r.multiplier;
          error = none;
        })
        (confirmed_with r m)
    else let e = or_else r.error "Cash-out failed" in
      resolve_once (failed_result e) (failed_with e m)

unfoldable pub on_answer : Outcome Bool → Outcome CashOutResult → Monitor → Monitor
unfolding deliver execute_cash_out
on_answer request wait m =
    if m.pending then deliver (execute_cash_out request wait) (record m { pending = false }) else m

unfoldable pub on_safety_timeout : Monitor → Monitor
unfolding resolve_once
on_safety_timeout m =
    resolve_once
      (record {
        success = false;
        final_state = unknown;
        pnl = none;
        cash_out_multiplier = none;
        error = some "Cash-out monitor safety timeout exceeded";
      })
      m

abbrev pub abort : Monitor → Monitor
abort m = record m { aborted = true }

-- What can happen to a monitor.
pub data Happening : Type 0 where
  tick : ℕ → Happening
  crash : Happening
  answer : Outcome Bool → Outcome CashOutResult → Happening
  safety_timeout aborting : Happening

unfoldable pub step : ℕ → Happening → Monitor → Monitor
unfolding on_tick on_crash on_answer on_safety_timeout
step target (tick x) m = on_tick target x m
step target crash m = on_crash m
step target (answer request wait) m = on_answer request wait m
step target safety_timeout m = on_safety_timeout m
step target aborting m = abort m

abbrev pub run : ℕ → List Happening → Monitor → Monitor
run target [] m = m
run target (h ∷ hs) m = run target hs (step target h m)
