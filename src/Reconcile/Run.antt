-- ===== src/Reconcile/Run.antt =====
-- reconcile and handleMismatch of src/ledger/balance-reconciliation.ts. A number that is not known
-- (`NaN`) is `none`; the events that the bus is asked to emit are kept, oldest first.
use mathlib.Core.Option.{map}
use crash_wave.Prelude.{
  ℕ, ◌+◌, String, Option, none, some, Bool, true, false, ◌&&◌, List, [], ◌∷◌, ◌++◌, leb,
  if◌then◌else◌,
}
use crash_wave.Prelude.Int.{ℤ, ◌-ℤ◌, pos_part, neg_part}
use crash_wave.Betting.Types.{Outcome, returned, threw, Done}
use crash_wave.Reconcile.Pages.{Source, first_known, compute_expected_balance}

pub record ReconciliationResult : Type 0 where
  pub reconciled : Bool
  pub expected_balance : ℤ
  pub actual_balance : Option ℤ
  pub difference : Option ℤ
  pub within_tolerance : Bool
  pub tolerance : ℕ
  pub unresolved_bets : ℕ
  pub alert_sent : Bool
  pub timestamp : String

-- Without the fields that no code reads or that only a log reads.
pub record BalanceReconciliationConfig : Type 0 where
  pub tolerance : ℕ
  pub emit_alerts : Bool
  pub halt_on_mismatch : Bool

pub data Event : Type 0 where
  critical_error : ReconciliationResult → Event
  system_paused : ℕ → Event

pub record BalanceReconciliation : Type 0 where
  pub last_result : Option ReconciliationResult
  pub consecutive_mismatches : ℕ
  pub emitted : List Event

abbrev pub new_reconciliation : BalanceReconciliation
new_reconciliation = record { last_result = none; consecutive_mismatches = 0; emitted = [] }

-- What a call of `reconcile` sees: its argument, the tracker's balance, the repository, how many
-- unknown bets that counts, and how the bus answers.
pub record Seen : Type 0 where
  pub given : Option ℤ
  pub current : Option ℤ
  pub source : Source
  pub unknown_bets : Outcome ℕ
  pub emit : Event → Outcome Done
  pub now : String

abbrev pub max_consecutive_mismatches : ℕ
max_consecutive_mismatches = 3

abbrev pub count_unresolved_bets : Outcome ℕ → ℕ
count_unresolved_bets (returned n) = n
count_unresolved_bets (threw m) = 0

unfoldable pub should_halt : BalanceReconciliation → Bool
should_halt r = leb max_consecutive_mismatches r.consecutive_mismatches

abbrev pub emitting : Event → BalanceReconciliation → BalanceReconciliation
emitting e r = record r { emitted = r.emitted ++ e ∷ [] }

-- `emitTyped` under a condition, and what follows it.
abbrev pub emitted_then :
    (BalanceReconciliation → Outcome Bool × BalanceReconciliation)
    → BalanceReconciliation
    → Outcome Done
    → Outcome Bool × BalanceReconciliation
emitted_then next r (returned d) = next r
emitted_then next r (threw m) = (threw m, r)

abbrev pub emit_if :
    Bool
    → Seen
    → Event
    → (BalanceReconciliation → Outcome Bool × BalanceReconciliation)
    → BalanceReconciliation
    → Outcome Bool × BalanceReconciliation
emit_if false seen e next r = next r
emit_if true seen e next r = emitted_then next (emitting e r) (seen.emit e)

unfoldable pub handle_mismatch :
    BalanceReconciliationConfig
    → Seen
    → ReconciliationResult
    → BalanceReconciliation
    → Outcome Bool × BalanceReconciliation
unfolding should_halt
handle_mismatch c seen result = emit_if c.emit_alerts seen (critical_error result) (λ r.
    emit_if (c.halt_on_mismatch && should_halt r) seen (system_paused r.consecutive_mismatches)
      (λ q. (returned c.emit_alerts, q)) r)

abbrev pub within : ℕ → ℤ → Bool
within tolerance d = leb (pos_part d + neg_part d) tolerance

abbrev pub unknown_result : BalanceReconciliationConfig → Seen → ℤ → ReconciliationResult
unknown_result c seen expected = record {
  reconciled = false;
  expected_balance = expected;
  actual_balance = none;
  difference = none;
  within_tolerance = false;
  tolerance = c.tolerance;
  unresolved_bets = count_unresolved_bets seen.unknown_bets;
  alert_sent = false;
  timestamp = seen.now;
}

abbrev pub compared_result : BalanceReconciliationConfig → Seen → ℤ → ℤ → ReconciliationResult
compared_result c seen expected actual = record {
  reconciled =
      within c.tolerance (actual -ℤ expected) && leb (count_unresolved_bets seen.unknown_bets) 0;
  expected_balance = expected;
  actual_balance = some actual;
  difference = some (actual -ℤ expected);
  within_tolerance = within c.tolerance (actual -ℤ expected);
  tolerance = c.tolerance;
  unresolved_bets = count_unresolved_bets seen.unknown_bets;
  alert_sent = false;
  timestamp = seen.now;
}

-- `result.alertSent = await ...`, and the end of `reconcile`.
abbrev pub alerted :
    ReconciliationResult
    → Outcome Bool × BalanceReconciliation
    → Outcome ReconciliationResult × BalanceReconciliation
alerted result (returned sent, r) =
    let sent_result = record result { alert_sent = sent } in
    (returned sent_result, record r { last_result = some sent_result })
alerted result (threw m, r) = (threw m, r)

unfoldable pub compare_balances :
    BalanceReconciliationConfig
    → Seen
    → ℤ
    → Option ℤ
    → BalanceReconciliation
    → Outcome ReconciliationResult × BalanceReconciliation
unfolding handle_mismatch
compare_balances c seen expected none r =
    let result = unknown_result c seen expected in
    (returned result, record r { last_result = some result })
compare_balances c seen expected (some actual) r =
    let result = compared_result c seen expected actual in
    if result.within_tolerance
    then (returned result, record r { consecutive_mismatches = 0; last_result = some result })
    else alerted result (
        handle_mismatch c seen result
          (record r { consecutive_mismatches = r.consecutive_mismatches + 1 }))

abbrev pub with_expected :
    BalanceReconciliationConfig
    → Seen
    → BalanceReconciliation
    → Outcome ℤ
    → Outcome ReconciliationResult × BalanceReconciliation
with_expected c seen r (threw m) = (threw m, r)
with_expected c seen r (returned expected) =
    compare_balances c seen expected (first_known seen.given seen.current) r

unfoldable pub reconcile :
    BalanceReconciliationConfig
    → Seen
    → BalanceReconciliation
    → Option (Outcome ReconciliationResult × BalanceReconciliation)
unfolding compute_expected_balance compare_balances
reconcile c seen r =
    map (with_expected c seen r) (compute_expected_balance seen.source seen.current)

abbrev pub after_call :
    BalanceReconciliation
    → Option (Outcome ReconciliationResult × BalanceReconciliation)
    → BalanceReconciliation
after_call r none = r
after_call r (some w) = w.1

-- The calls of `reconcile`, one after the other.
unfoldable pub reconcile_all :
    BalanceReconciliationConfig → List Seen → BalanceReconciliation → BalanceReconciliation
unfolding reconcile
reconcile_all c [] r = r
reconcile_all c (seen ∷ rest) r = reconcile_all c rest (after_call r (reconcile c seen r))
