-- ===== src/Recovery/Types.antt =====
-- The types of src/ledger/unknown-state-recovery.ts, with the collaborators that it is given, and
-- what a settlement writes. The texts of the results are constructors.
use crash_wave.Prelude.{ℕ, ◌+◌, ◌*◌, String, Option, none, some, Bool, true, false, List}
use Prim.Native.Nat.{◌/◌}
use crash_wave.Prelude.Int.{ℤ, pos, sub_ℕ}
use crash_wave.Betting.Types.{BetState, unknown, Outcome}
use crash_wave.Bets.Types.{BetRecord, UpdateBetInput}
use crash_wave.Bets.Memory.{no_change}

pub data EvidenceStatus : Type 0 where
  cashed_out lost failed : EvidenceStatus

pub record SettlementEvidence : Type 0 where
  pub status : Option EvidenceStatus
  pub cash_out_multiplier : Option ℕ
  pub external_reference : Option String
  pub source : String

pub record Round : Type 0 where
  pub final_confirmed_crash_point : Option ℕ
  pub observed_crash_point : Option ℕ

pub data Reason : Type 0 where
  no_round_id : Reason
  round_not_found : String → Reason
  no_provider : Option ℕ → Reason
  evidence_unavailable : String → Reason
  settlement_confirmed : BetState → String → Reason
  recovery_error : String → Reason
  given : String → Reason
  manually_resolved : BetState → Reason

pub record BetRecoveryResult : Type 0 where
  pub bet_id : String
  pub previous_state : BetState
  pub new_state : BetState
  pub resolved : Bool
  pub reason : Reason
  pub pnl : Option ℤ
  pub multiplier : Option ℕ

pub record RecoverySweepResult : Type 0 where
  pub total_unknown : ℕ
  pub resolved : ℕ
  pub manual_review_required : ℕ
  pub still_unknown : ℕ
  pub results : List BetRecoveryResult

-- The collaborators, and `maxBetsPerSweep`. `alert` is the event bus's answer to the count that a
-- sweep reports, and `failure_text` the text that is stored with a settlement.
pub record RecoveryEnv : Type 0 where
  pub round : String → Outcome (Option Round)
  pub provider : Option (BetRecord → Outcome SettlementEvidence)
  pub alert : ℕ → Outcome (Unit {0})
  pub failure_text : String → Option String → String
  pub max_bets_per_sweep : ℕ

pub record Recovery (S : Type 0) : Type 0 where
  pub store : S
  pub is_reconciling : Bool

abbrev pub unresolved : BetRecord → Reason → BetRecoveryResult
unresolved b why = record {
  bet_id = b.id;
  previous_state = unknown;
  new_state = unknown;
  resolved = false;
  reason = why;
  pnl = none;
  multiplier = none;
}

-- The states that an operator may choose.
pub data ManualState : Type 0 where
  cashed_out lost reconciled : ManualState

abbrev pub manual_state : ManualState → BetState
manual_state ManualState.cashed_out = BetState.cashed_out
manual_state ManualState.lost = BetState.lost
manual_state ManualState.reconciled = BetState.reconciled

abbrev pub settled_state : EvidenceStatus → BetState
settled_state EvidenceStatus.cashed_out = BetState.cashed_out
settled_state EvidenceStatus.lost = BetState.lost
settled_state EvidenceStatus.failed = BetState.failed

abbrev pub settled_multiplier : EvidenceStatus → Option ℕ → Option ℕ
settled_multiplier EvidenceStatus.cashed_out m = m
settled_multiplier _ m = none

-- `Math.round((stake * multiplier - stake) * 100) / 100`, in cents and hundredths.
win_pnl : ℕ → ℕ → ℤ
win_pnl stake m = sub_ℕ ((stake * m + 50) / 100) stake

unfoldable pub settled_pnl : EvidenceStatus → Option ℕ → ℕ → ℤ
unfolding win_pnl
settled_pnl EvidenceStatus.cashed_out (some m) stake = win_pnl stake m
settled_pnl EvidenceStatus.lost m stake = sub_ℕ 0 stake
settled_pnl _ m stake = pos 0

abbrev pub settlement :
    RecoveryEnv → EvidenceStatus → SettlementEvidence → BetRecord → UpdateBetInput
settlement env st e b = record no_change {
  state = some (settled_state st);
  confirmed_cash_out_multiplier = some (settled_multiplier st e.cash_out_multiplier);
  observed_cash_out_multiplier = some (settled_multiplier st e.cash_out_multiplier);
  pnl = some (some (settled_pnl st e.cash_out_multiplier b.stake));
  failure_reason = some (some (env.failure_text e.source e.external_reference));
}

abbrev pub resolved_result : EvidenceStatus → SettlementEvidence → BetRecord → BetRecoveryResult
resolved_result st e b = record {
  bet_id = b.id;
  previous_state = unknown;
  new_state = settled_state st;
  resolved = true;
  reason = settlement_confirmed (settled_state st) e.source;
  pnl = some (settled_pnl st e.cash_out_multiplier b.stake);
  multiplier = settled_multiplier st e.cash_out_multiplier;
}
