-- ===== src/Recovery/Sweep.antt =====
-- runRecoverySweep, recoverBet and manualResolve of src/ledger/unknown-state-recovery.ts.
use mathlib.Core.Option
use crash_wave.Prelude.{
  ℕ, zero, suc, ◌+◌, ◌-◌, String, Option, none, some, true, false, List, [], ◌∷◌, length, or_else,
  truthy, if◌then◌else◌,
}
use crash_wave.Prelude.Int.{ℤ}
use crash_wave.Betting.Types.{unknown, Outcome, returned, threw}
use crash_wave.Bets.Types.{BetRecord, UpdateBetInput, is_state}
use crash_wave.Bets.Memory.{no_change}
use crash_wave.Bets.Store.{BetStore}
use crash_wave.Recovery.Types.{
  EvidenceStatus, SettlementEvidence, Round, no_round_id, round_not_found, no_provider,
  evidence_unavailable, recovery_error, given, manually_resolved, BetRecoveryResult,
  RecoverySweepResult, RecoveryEnv, Recovery, unresolved, settlement, resolved_result, ManualState,
  manual_state,
}

module _ {S : Type 0} (repo : BetStore S) (env : RecoveryEnv) where
  -- The `try` around the update, whose answer is not read.
  unfoldable pub after_update :
      EvidenceStatus
      → SettlementEvidence
      → BetRecord
      → Outcome (Option BetRecord) × S
      → BetRecoveryResult × S
  after_update st e b (returned o, s) = (resolved_result st e b, s)
  after_update st e b (threw m, s) = (unresolved b (recovery_error m), s)

  unfoldable pub by_status :
      Option EvidenceStatus → SettlementEvidence → BetRecord → S → BetRecoveryResult × S
  by_status none e b s = (unresolved b (evidence_unavailable e.source), s)
  by_status (some st) e b s = after_update st e b (repo.update b.id (settlement env st e b) s)

  unfoldable pub by_evidence : Outcome SettlementEvidence → BetRecord → S → BetRecoveryResult × S
  by_evidence (threw m) b s = (unresolved b (recovery_error m), s)
  by_evidence (returned e) b s = by_status e.status e b s

  unfoldable pub by_provider :
      Option (BetRecord → Outcome SettlementEvidence)
      → Round
      → BetRecord
      → S
      → BetRecoveryResult × S
  by_provider none r b s = (
    unresolved b (
        no_provider
          (elim r.final_confirmed_crash_point [ none ↦ r.observed_crash_point | some x ↦ some x ])),
    s,
  )
  by_provider (some p) r b s = by_evidence (p b) b s

  unfoldable pub by_round : String → Outcome (Option Round) → BetRecord → S → BetRecoveryResult × S
  by_round id (threw m) b s = (unresolved b (recovery_error m), s)
  by_round id (returned none) b s = (unresolved b (round_not_found id), s)
  by_round id (returned (some r)) b s = by_provider env.provider r b s

  unfoldable pub by_round_id : Option String → BetRecord → S → BetRecoveryResult × S
  by_round_id none b s = (unresolved b no_round_id, s)
  by_round_id (some id) b s =
      if truthy id then by_round id (env.round id) b s else (unresolved b no_round_id, s)

  unfoldable pub recover_bet : BetRecord → S → BetRecoveryResult × S
  unfolding after_update by_status by_evidence by_provider by_round by_round_id
  recover_bet b s = by_round_id b.round_id b s

  -- The loop, with the results in order and the number of the resolved ones.
  unfoldable pub recover_all : List BetRecord → S → List BetRecoveryResult × ℕ × S
  unfolding recover_bet
  recover_all [] s = ([], 0, s)
  recover_all (b ∷ bs) s =
      let (r, s') = recover_bet b s in
      let (rs, n, s'') = recover_all bs s' in (r ∷ rs, if r.resolved then n + 1 else n, s'')

  abbrev pub swept : List BetRecord → List BetRecoveryResult × ℕ × S → RecoverySweepResult
  swept bs (rs, n, s) = record {
    total_unknown = length bs;
    resolved = n;
    manual_review_required = length rs - n;
    still_unknown = length rs - n;
    results = rs;
  }

  abbrev pub empty_sweep : RecoverySweepResult
  empty_sweep = record {
    total_unknown = 0;
    resolved = 0;
    manual_review_required = 0;
    still_unknown = 0;
    results = [];
  }

  -- The event bus is asked only when some bet stays unknown.
  abbrev pub alerted : ℕ → Outcome (Unit {0})
  alerted zero = returned tt
  alerted (suc n) = env.alert (suc n)

  unfoldable pub report : RecoverySweepResult → Outcome (Unit {0}) → Outcome RecoverySweepResult
  report r (returned _) = returned r
  report r (threw m) = threw m

  unfoldable pub sweep_listed : Outcome (List BetRecord) → S → Outcome RecoverySweepResult × S
  unfolding report
  sweep_listed (threw m) s = (threw m, s)
  sweep_listed (returned bs) s =
      let all = recover_all bs s in
      let r = swept bs all in (report r (alerted r.manual_review_required), all.2)

  unfoldable pub sweep_free :
      Outcome RecoverySweepResult × S → Outcome RecoverySweepResult × Recovery S
  sweep_free (o, s) = (o, record { store = s; is_reconciling = false })

  -- The flag is down again when a sweep ends, also when it throws.
  unfoldable pub run_recovery_sweep : Recovery S → Outcome RecoverySweepResult × Recovery S
  unfolding sweep_listed sweep_free
  run_recovery_sweep r =
      if r.is_reconciling
      then (returned empty_sweep, r)
      else sweep_free
          (sweep_listed (repo.find_by_state unknown env.max_bets_per_sweep r.store) r.store)

abbrev pub manual_update : ManualState → ℤ → Option ℕ → UpdateBetInput
manual_update st pnl m = record no_change {
  state = some (manual_state st);
  confirmed_cash_out_multiplier = some m;
  observed_cash_out_multiplier = some m;
  pnl = some (some pnl);
}

abbrev pub manual_result : String → ManualState → ℤ → Option ℕ → Option String → BetRecoveryResult
manual_result id st pnl m why = record {
  bet_id = id;
  previous_state = unknown;
  new_state = manual_state st;
  resolved = true;
  reason = or_else (Option.map given why) (manually_resolved (manual_state st));
  pnl = some pnl;
  multiplier = m;
}

module _ {S : Type 0} (repo : BetStore S) where
  unfoldable pub manual_written :
      BetRecoveryResult → Outcome (Option BetRecord) × S → Outcome BetRecoveryResult × S
  manual_written r (returned o, s) = (returned r, s)
  manual_written r (threw m, s) = (threw m, s)

  unfoldable pub manual_found :
      String
      → ManualState
      → ℤ
      → Option ℕ
      → Option String
      → Outcome (Option BetRecord)
      → S
      → Outcome BetRecoveryResult × S
  unfolding manual_written
  manual_found id st pnl m why (threw e) s = (threw e, s)
  manual_found id st pnl m why (returned none) s = (threw "MANUAL_RESOLVE_NOT_FOUND", s)
  manual_found id st pnl m why (returned (some b)) s =
      if is_state b.state unknown
      then manual_written (manual_result id st pnl m why)
          (repo.update id (manual_update st pnl m) s)
      else (threw "MANUAL_RESOLVE_INVALID_STATE", s)

  unfoldable pub manual_resolve :
      String → ManualState → ℤ → Option ℕ → Option String → S → Outcome BetRecoveryResult × S
  unfolding manual_found
  manual_resolve id st pnl m why s = manual_found id st pnl m why (repo.find_by_id id s) s
