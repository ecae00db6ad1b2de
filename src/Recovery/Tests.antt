-- ===== src/Recovery/Tests.antt =====
-- Sweeps over a repository in memory, and each theorem at an input of its own.
use crash_wave.Prelude.{◌≡◌, refl, none, some, false}
use crash_wave.Prelude.Int.{pos, negsuc}
use crash_wave.Betting.Types.{unknown, returned}
use crash_wave.Bets.Types.{CreateBetInput}
use crash_wave.Bets.MemoryStore.{KeptRepository, create_kept, none_kept, memory_store}
use crash_wave.Recovery.Types.{
  SettlementEvidence, EvidenceStatus, ManualState, RecoveryEnv, Recovery, settled_pnl,
}
use crash_wave.Recovery.Sweep.{run_recovery_sweep, manual_resolve}
use crash_wave.Recovery.Evidence.{Moved}
use crash_wave.Recovery.Settled.{Accounted, run_recovery_sweep-Moved, run_recovery_sweep-Accounted}
use crash_wave.Recovery.Manual.{Resolved, manual_resolve-Resolved}

abbrev lost_bet : CreateBetInput
lost_bet = record {
  session_id = some "s1";
  round_id = some "r1";
  daily_key = "2026-01-05";
  stake = 700;
  cash_out_target = 130;
  state = some unknown;
  balance_before = none;
}

abbrev one_unknown : KeptRepository
one_unknown = create_kept lost_bet 5 none_kept

abbrev lost_evidence : SettlementEvidence
lost_evidence = record {
  status = some EvidenceStatus.lost;
  cash_out_multiplier = none;
  external_reference = some "x1";
  source = "history";
}

abbrev env : RecoveryEnv
env = record {
  round = λ id.
      returned
        (some (record { final_confirmed_crash_point = some 120; observed_crash_point = none }));
  provider = some (λ b. returned lost_evidence);
  alert = λ n. returned tt;
  failure_text = λ source reference. source;
  max_bets_per_sweep = 50;
}

abbrev start : Recovery KeptRepository
start = record { store = one_unknown; is_reconciling = false }

-- 7.00 at 1.305 pays 9.135, which is rounded to 9.14.
rounded_win : settled_pnl EvidenceStatus.cashed_out (some 131) 700 ≡ pos 217
unfolding settled_pnl
rounded_win = refl

-- A win whose multiplier the evidence does not give is booked with no profit at all.
win_without_multiplier : settled_pnl EvidenceStatus.cashed_out none 700 ≡ pos 0
unfolding settled_pnl
win_without_multiplier = refl

sweep_moves_example :
    Moved env.provider
      (memory_store.look one_unknown "bet-1")
      (memory_store.look (run_recovery_sweep memory_store env start).1.store "bet-1")
sweep_moves_example = run_recovery_sweep-Moved memory_store env start "bet-1"

sweep_accounts_example :
    Accounted memory_store env (run_recovery_sweep memory_store env start).0
    × ((run_recovery_sweep memory_store env start).1.is_reconciling ≡ false)
sweep_accounts_example = run_recovery_sweep-Accounted memory_store env start

manual_resolve_example :
    Resolved "bet-1" ManualState.lost
      (negsuc 699)
      (manual_resolve memory_store "bet-1" ManualState.lost (negsuc 699) none none one_unknown).0
      (memory_store.look one_unknown)
      (memory_store.look
        (manual_resolve memory_store "bet-1" ManualState.lost (negsuc 699) none none one_unknown).1)
manual_resolve_example =
    manual_resolve-Resolved memory_store "bet-1" ManualState.lost (negsuc 699) none none one_unknown
