-- ===== src/Recovery/Evidence.antt =====
-- What a recovery sweep of src/ledger/unknown-state-recovery.ts does to the stored bets.

use text.Mathlib.Text.{◌==◌ as str_eq}
use crash_wave.Prelude.{◌≡◌, refl, String, Option, none, some, truthy, if◌then◌else◌, if_both}
use crash_wave.Betting.Types.{unknown, Outcome, returned, threw}
use crash_wave.Bets.Types.{BetRecord}
use crash_wave.Bets.Store.{BetStore, Written, update_option}
use crash_wave.Recovery.Types.{
  EvidenceStatus, SettlementEvidence, Round, RecoveryEnv, BetRecoveryResult, settled_state,
  settled_pnl, settlement,
}
use crash_wave.Recovery.Sweep.{
  after_update, by_status, by_evidence, by_provider, by_round, by_round_id, recover_bet,
}

abbrev pub Provider : Type 0
Provider = Option (BetRecord → Outcome SettlementEvidence)

-- A stored bet is as it was, or it was unknown, the provider answered for it with a settlement, and
-- it has the state and the result of that settlement.
pub data Moved (p : Provider) (before after : Option BetRecord) : Type 0 where
  same : after ≡ before → Moved p before after
  settled :
      (b c : BetRecord) (q : BetRecord → Outcome SettlementEvidence) (e : SettlementEvidence)
      (st : EvidenceStatus)
      → p ≡ some q
      → q b ≡ returned e
      → e.status ≡ some st
      → before ≡ some b
      → b.state ≡ unknown
      → after ≡ some c
      → c.state ≡ settled_state st
      → c.pnl ≡ some (settled_pnl st e.cash_out_multiplier b.stake)
      → Moved p before after

-- One bet's recovery leaves the contents alone, or writes what the evidence says.
pub data Recovered (env : RecoveryEnv) (b : BetRecord) (old new : String → Option BetRecord)
    : Type 0 where
  kept : ((j : String) → new j ≡ old j) → Recovered env b old new
  wrote :
      (q : BetRecord → Outcome SettlementEvidence) (e : SettlementEvidence) (st : EvidenceStatus)
      → env.provider ≡ some q
      → q b ≡ returned e
      → e.status ≡ some st
      → ((j : String)
          → new j
            ≡ (if str_eq b.id j then update_option (settlement env st e b) (old b.id) else old j))
      → Recovered env b old new

module _ {S : Type 0} (repo : BetStore S) (env : RecoveryEnv) where
  after_update-Recovered :
      (q : BetRecord → Outcome SettlementEvidence) (st : EvidenceStatus) (e : SettlementEvidence)
      (b : BetRecord) (s : S) (w : Outcome (Option BetRecord) × S)
      → env.provider ≡ some q
      → q b ≡ returned e
      → e.status ≡ some st
      → Written (repo.look s) b.id (settlement env st e b) w.0 (repo.look w.1)
      → Recovered env b (repo.look s) (repo.look (after_update repo env st e b w).1)
  unfolding after_update
  after_update-Recovered q st e b s (returned o, s') p a h w = wrote q e st p a h w
  after_update-Recovered q st e b s (threw m, s') p a h w = kept w

  by_status-Recovered :
      (q : BetRecord → Outcome SettlementEvidence) (o : Option EvidenceStatus)
      (e : SettlementEvidence) (b : BetRecord) (s : S)
      → env.provider ≡ some q
      → q b ≡ returned e
      → e.status ≡ o
      → Recovered env b (repo.look s) (repo.look (by_status repo env o e b s).1)
  unfolding by_status
  by_status-Recovered q none e b s p a h = kept (λ j. refl)
  by_status-Recovered q (some st) e b s p a h =
      after_update-Recovered q st e b s (repo.update b.id (settlement env st e b) s) p a h
        (repo.written b.id (settlement env st e b) s)

  by_evidence-Recovered :
      (q : BetRecord → Outcome SettlementEvidence) (o : Outcome SettlementEvidence) (b : BetRecord)
      (s : S)
      → env.provider ≡ some q
      → q b ≡ o
      → Recovered env b (repo.look s) (repo.look (by_evidence repo env o b s).1)
  unfolding by_evidence
  by_evidence-Recovered q (threw m) b s p a = kept (λ j. refl)
  by_evidence-Recovered q (returned e) b s p a = by_status-Recovered q e.status e b s p a refl

  by_provider-Recovered :
      (o : Provider) (r : Round) (b : BetRecord) (s : S)
      → env.provider ≡ o
      → Recovered env b (repo.look s) (repo.look (by_provider repo env o r b s).1)
  unfolding by_provider
  by_provider-Recovered none r b s p = kept (λ j. refl)
  by_provider-Recovered (some q) r b s p = by_evidence-Recovered q (q b) b s p refl

  by_round-Recovered :
      (id : String) (o : Outcome (Option Round)) (b : BetRecord) (s : S)
      → Recovered env b (repo.look s) (repo.look (by_round repo env id o b s).1)
  unfolding by_round
  by_round-Recovered id (threw m) b s = kept (λ j. refl)
  by_round-Recovered id (returned none) b s = kept (λ j. refl)
  by_round-Recovered id (returned (some r)) b s = by_provider-Recovered env.provider r b s refl

  by_round_id-Recovered :
      (o : Option String) (b : BetRecord) (s : S)
      → Recovered env b (repo.look s) (repo.look (by_round_id repo env o b s).1)
  unfolding by_round_id
  by_round_id-Recovered none b s = kept (λ j. refl)
  by_round_id-Recovered (some id) b s =
      if_both (λ (w : BetRecoveryResult × S). Recovered env b (repo.look s) (repo.look w.1))
        (truthy id) (by_round-Recovered id (env.round id) b s) (kept (λ j. refl))

  pub recover_bet-Recovered :
      (b : BetRecord) (s : S)
      → Recovered env b (repo.look s) (repo.look (recover_bet repo env b s).1)
  unfolding recover_bet
  recover_bet-Recovered b s = by_round_id-Recovered b.round_id b s
