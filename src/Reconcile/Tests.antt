-- ===== src/Reconcile/Tests.antt =====
-- Reconciliations over a repository in memory, and each theorem at an input of its own.
use mathlib.Core.Option.{map}
use crash_wave.Prelude.{
  zero, suc, ◌≡◌, refl, none, some, true, List, [], ◌∷◌, is_some, take, drop, length, ◌≤◌, ℕ, arith,
}
use crash_wave.Prelude.Int.{pos, ◌+ℤ◌, ◌-ℤ◌}
use crash_wave.Betting.Types.{
  BetState, pending, reserved, placed, confirmed, active, cash_out_requested, cashed_out, lost,
  failed, unknown, reconciled, returned, threw, done,
}
use crash_wave.Bets.Types.{BetRecord}
use crash_wave.Reconcile.Pages.{Pager, paged, pooled, settled_states, compute_expected_balance}
use crash_wave.Reconcile.Paging.{compute_expected_balance-Total}
use crash_wave.Reconcile.Sum.{rows_of, ledger_balance, compute_expected_balance-rows}
use crash_wave.Reconcile.Run.{
  ReconciliationResult, BalanceReconciliationConfig, new_reconciliation, Seen, should_halt,
  reconcile_all,
}
use crash_wave.Reconcile.Streak.{three_disagree, agreements, Paused, reconcile_all-should_halt}

abbrev bet : BetState → ℕ → BetRecord
bet s won = record {
  id = "b1";
  session_id = none;
  round_id = none;
  daily_key = "2026-01-05";
  stake = 700;
  cash_out_target = 130;
  state = s;
  requested_at = none;
  placed_at = none;
  confirmed_at = none;
  cash_out_requested_at = none;
  cash_out_confirmed_at = none;
  observed_cash_out_multiplier = none;
  confirmed_cash_out_multiplier = none;
  pnl = some (pos won);
  balance_before = some (pos 5000);
  balance_after = none;
  failure_reason = none;
  created_at = 5;
}

abbrev rows : BetState → List BetRecord
rows cashed_out = bet cashed_out 210 ∷ bet cashed_out 40 ∷ []
rows _ = []

abbrev pages : Pager
pages st limit offset = returned (take limit (drop offset (rows st)))

-- A repository that ignores the offset, and never comes to an end.
abbrev full : ℕ → List BetRecord
full zero = []
full (suc n) = bet lost 0 ∷ full n

abbrev endless : Pager
endless st limit offset = returned (full limit)

Total_example : is_some (compute_expected_balance (paged endless) none) ≡ true
Total_example = compute_expected_balance-Total (paged endless) none

short_rows : (st : BetState) → length (rows st) ≤ 1000000
short_rows cashed_out = omega arith
short_rows pending = omega arith
short_rows reserved = omega arith
short_rows placed = omega arith
short_rows confirmed = omega arith
short_rows active = omega arith
short_rows cash_out_requested = omega arith
short_rows lost = omega arith
short_rows failed = omega arith
short_rows unknown = omega arith
short_rows reconciled = omega arith

-- 50.00 and results of 2.10 and 0.40.
rows_balance : ledger_balance none (rows_of rows settled_states) ≡ pos 5250
unfolding ◌+ℤ◌
rows_balance = refl

rows_example :
    compute_expected_balance (paged pages) none
    ≡ some (returned (ledger_balance none (rows_of rows settled_states)))
rows_example = compute_expected_balance-rows pages rows none ((λ st limit offset. refl), short_rows)

abbrev config : BalanceReconciliationConfig
config = record { tolerance = 1; emit_alerts = true; halt_on_mismatch = true }

-- The tracker's balance against an aggregate of 50.00.
abbrev seen : ℕ → Seen
seen balance = record {
  given = none;
  current = some (pos balance);
  source = pooled (returned (some (record { baseline = some (pos 5000); aggregate_pnl = none })));
  unknown_bets = threw "down";
  emit = λ e. returned done;
  now = "2026-01-05T00:00:00Z";
}

abbrev blind : Seen
blind = record (seen 0) { current = none }

abbrev mismatches : List Seen
mismatches = seen 4000 ∷ seen 4000 ∷ blind ∷ seen 4000 ∷ []

streak_halts : should_halt (reconcile_all config mismatches new_reconciliation) ≡ true
unfolding reconcile_all should_halt ◌-ℤ◌ ◌+ℤ◌
streak_halts = refl

-- Unknown bets that cannot be counted count as none, and the balances are called reconciled.
uncounted_reconciled :
    map
      (λ (r : ReconciliationResult). r.reconciled)
      (reconcile_all config (seen 5000 ∷ []) new_reconciliation).last_result
    ≡ some true
unfolding reconcile_all ◌-ℤ◌ ◌+ℤ◌
uncounted_reconciled = refl

should_halt_example :
    let r = reconcile_all config mismatches new_reconciliation in
    (should_halt r ≡ three_disagree (agreements config mismatches [])) × Paused config r.emitted
should_halt_example = reconcile_all-should_halt config mismatches
