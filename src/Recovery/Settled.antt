-- ===== src/Recovery/Settled.antt =====
-- The evidence behind every change of a sweep of src/ledger/unknown-state-recovery.ts.
use mathlib.Core.Path.{subst}
use text.Mathlib.Text.{◌==◌ as str_eq}
use text.Mathlib.TextEquality.{eq_iff}
use crash_wave.Prelude.{
  ◌+◌, ◌≤◌, ◌≡◌, refl, ◌∙◌, sym, ap, String, Option, some, true, false, List, [], ◌∷◌, arith,
  if_cases, length,
}
use crash_wave.Betting.Types.{unknown, Outcome, returned, threw}
use crash_wave.Bets.Types.{BetRecord}
use crash_wave.Bets.Memory.{updated}
use crash_wave.Bets.Store.{BetStore, Listed, update_option}
use crash_wave.Recovery.Types.{RecoveryEnv, Recovery, RecoverySweepResult, settlement}
use crash_wave.Recovery.Sweep.{
  recover_bet, recover_all, sweep_listed, run_recovery_sweep, swept, report, alerted,
}
use crash_wave.Recovery.Evidence.{
  Provider, Moved, same, settled, Recovered, kept, wrote, recover_bet-Recovered,
}

still_there :
    (p : Provider) (before after : Option BetRecord) (b : BetRecord)
    → before ≡ some b
    → Moved p before after
    → (c : BetRecord) × (after ≡ some c)
still_there p before after b e (same h) = (b, h ∙ e)
still_there p before after b e (settled b' c q ev st _ _ _ _ _ h _ _) = (c, h)

module _ (env : RecoveryEnv) (look0 look1 look2 : String → Option BetRecord) (b : BetRecord)
    (first : look0 b.id ≡ some b) (unsettled : b.state ≡ unknown) where
  -- Recovering a listed bet keeps the account of every stored bet.
  next-Moved :
      (j : String)
      → Moved env.provider (look0 b.id) (look1 b.id)
      → Moved env.provider (look0 j) (look1 j)
      → Recovered env b look1 look2
      → Moved env.provider (look0 j) (look2 j)
  unfolding updated
  next-Moved j own m (kept k) = subst (Moved env.provider (look0 j)) (sym (k j)) m
  next-Moved j own m (wrote q e st p a h w) =
      let (c, there) = still_there env.provider (look0 b.id) (look1 b.id) b first own in
      subst (Moved env.provider (look0 j)) (sym (w j)) (
        if_cases (Moved env.provider (look0 j)) (str_eq b.id j)
          (λ (hit : str_eq b.id j ≡ true).
            settled b (updated (settlement env st e b) c) q e st p a h
              (subst (λ (k : String). look0 k ≡ some b) ((eq_iff b.id j).0 hit) first) unsettled
              (ap (update_option (settlement env st e b)) there) refl refl)
          (λ _. m))

module _ {S : Type 0} (repo : BetStore S) (env : RecoveryEnv) (s0 : S) where
  recover_all-Moved :
      (bs : List BetRecord) (s : S)
      → Listed (repo.look s0) unknown bs
      → ((j : String) → Moved env.provider (repo.look s0 j) (repo.look s j))
      → (j : String)
      → Moved env.provider (repo.look s0 j) (repo.look (recover_all repo env bs s).2 j)
  unfolding recover_all
  recover_all-Moved [] s l m j = m j
  recover_all-Moved (b ∷ bs) s (first, unk, l) m j =
      recover_all-Moved bs (recover_bet repo env b s).1 l
        (λ k.
          next-Moved env (repo.look s0) (repo.look s) (repo.look (recover_bet repo env b s).1) b
            first unk k (m b.id) (m k) (recover_bet-Recovered repo env b s))
        j

module _ {S : Type 0} (repo : BetStore S) (env : RecoveryEnv) where
  sweep_listed-Moved :
      (o : Outcome (List BetRecord)) (s : S)
      → repo.find_by_state unknown env.max_bets_per_sweep s ≡ o
      → (j : String)
      → Moved env.provider (repo.look s j) (repo.look (sweep_listed repo env o s).1 j)
  unfolding sweep_listed
  sweep_listed-Moved (threw m) s e j = same refl
  sweep_listed-Moved (returned bs) s e j =
      recover_all-Moved repo env s bs s (repo.listed unknown env.max_bets_per_sweep s bs e)
        (λ k. same refl) j

  -- Over any repository that keeps its contract, a sweep leaves every stored bet as it is, unless
  -- the bet was unknown and the provider answered for it with a settlement; then the bet has the
  -- state and the result of that settlement.
  pub run_recovery_sweep-Moved :
      (r : Recovery S) (j : String)
      → Moved env.provider
          (repo.look r.store j)
          (repo.look (run_recovery_sweep repo env r).1.store j)
  unfolding run_recovery_sweep
  run_recovery_sweep-Moved r j =
      if_cases
        (λ (w : Outcome RecoverySweepResult × Recovery S).
          Moved env.provider (repo.look r.store j) (repo.look w.1.store j))
        r.is_reconciling (λ _. same refl)
        (λ _.
          sweep_listed-Moved (repo.find_by_state unknown env.max_bets_per_sweep r.store) r.store
            refl j)

  recover_all-counts :
      (bs : List BetRecord) (s : S)
      → (length (recover_all repo env bs s).0 ≡ length bs)
        × ((recover_all repo env bs s).1 ≤ length bs)
  unfolding recover_all
  recover_all-counts [] s = (refl, omega arith)
  recover_all-counts (b ∷ bs) s = ground (arith, recover_all-counts bs (recover_bet repo env b s).1)

  abbrev pub Accounted : Outcome RecoverySweepResult → Type 0
  Accounted (threw m) = Unit
  Accounted (returned r) =
      (r.total_unknown ≡ r.resolved + r.manual_review_required)
      × (length r.results ≡ r.total_unknown)
      × (r.still_unknown ≡ r.manual_review_required)

  sweep_listed-Accounted :
      (o : Outcome (List BetRecord)) (s : S) → Accounted (sweep_listed repo env o s).0
  unfolding sweep_listed report
  sweep_listed-Accounted (threw m) s = tt
  sweep_listed-Accounted (returned bs) s =
      let c = recover_all-counts bs s in
      let r = swept repo env bs (recover_all repo env bs s) in
      reported r (alerted repo env r.manual_review_required) (omega (arith, c.0, c.1), c.0, refl)
    where
      reported :
          (r : RecoverySweepResult) (o : Outcome (Unit {0}))
          → Accounted (returned r)
          → Accounted (report repo env r o)
      reported r (returned _) h = h
      reported r (threw m) h = tt

  -- A sweep that returns a result accounts for every bet that it read: each has its result, and is
  -- counted as resolved or for manual review. Afterwards the flag is as it was before the call.
  pub run_recovery_sweep-Accounted :
      (r : Recovery S)
      → Accounted (run_recovery_sweep repo env r).0
        × ((run_recovery_sweep repo env r).1.is_reconciling ≡ r.is_reconciling)
  unfolding run_recovery_sweep
  run_recovery_sweep-Accounted r =
      if_cases
        (λ (w : Outcome RecoverySweepResult × Recovery S).
          Accounted w.0 × (w.1.is_reconciling ≡ r.is_reconciling))
        r.is_reconciling (λ _. ((omega arith, refl, refl), refl))
        (λ (free : r.is_reconciling ≡ false). (
          sweep_listed-Accounted (repo.find_by_state unknown env.max_bets_per_sweep r.store)
              r.store,
          sym free,
        ))
