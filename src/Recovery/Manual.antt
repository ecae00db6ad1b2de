-- ===== src/Recovery/Manual.antt =====
-- What manualResolve of src/ledger/unknown-state-recovery.ts does to the stored bets.

use text.Mathlib.Text.{◌==◌ as str_eq}
use crash_wave.Prelude.{
  ℕ, ◌≡◌, refl, ◌∙◌, sym, ap, String, Option, none, some, true, if◌then◌else◌, if_cases,
}
use crash_wave.Prelude.Int.{ℤ}
use crash_wave.Betting.Types.{unknown, Outcome, returned, threw}
use crash_wave.Bets.Types.{BetRecord, is_state, is_state_iff}
use crash_wave.Bets.Memory.{updated}
use crash_wave.Bets.Store.{BetStore, Written, update_option}
use crash_wave.Recovery.Types.{BetRecoveryResult, ManualState, manual_state}
use crash_wave.Recovery.Sweep.{
  manual_update, manual_written, manual_found, manual_resolve, manual_result,
}

-- What a manual resolution may leave of the contents: either all as it was, and then it threw, or
-- all but the one bet, which was unknown and now has the state and the result that were asked for.
pub data Resolved {A : Type 0} (id : String) (st : ManualState) (pnl : ℤ) (o : Outcome A)
    (old new : String → Option BetRecord) : Type 0 where
  refused :
      (m : String) → o ≡ threw m → ((j : String) → new j ≡ old j) → Resolved id st pnl o old new
  resolved :
      (r : A) (b c : BetRecord)
      → o ≡ returned r
      → old id ≡ some b
      → b.state ≡ unknown
      → c.state ≡ manual_state st
      → c.pnl ≡ some pnl
      → ((j : String) → new j ≡ (if str_eq id j then some c else old j))
      → Resolved id st pnl o old new

module _ {S : Type 0} (repo : BetStore S) (id : String) (st : ManualState) (pnl : ℤ) (m : Option ℕ)
    (why : Option String) where
  written-Resolved :
      (b : BetRecord) (s : S) (w : Outcome (Option BetRecord) × S) (r : BetRecoveryResult)
      → repo.look s id ≡ some b
      → b.state ≡ unknown
      → Written (repo.look s) id (manual_update st pnl m) w.0 (repo.look w.1)
      → Resolved id st pnl
          (manual_written repo r w).0
          (repo.look s)
          (repo.look (manual_written repo r w).1)
  unfolding manual_written updated
  written-Resolved b s (returned o, s') r e u h =
      resolved r b (updated (manual_update st pnl m) b) refl e u refl refl (λ j.
        h j
        ∙ ap
            (λ (o : Option BetRecord).
              if str_eq id j then update_option (manual_update st pnl m) o else repo.look s j)
            e)
  written-Resolved b s (threw x, s') r e u h = refused x refl h

  found-Resolved :
      (o : Outcome (Option BetRecord)) (s : S)
      → repo.find_by_id id s ≡ o
      → Resolved id st pnl
          (manual_found repo id st pnl m why o s).0
          (repo.look s)
          (repo.look (manual_found repo id st pnl m why o s).1)
  unfolding manual_found
  found-Resolved (threw x) s e = refused x refl (λ j. refl)
  found-Resolved (returned none) s e = refused "MANUAL_RESOLVE_NOT_FOUND" refl (λ j. refl)
  found-Resolved (returned (some b)) s e =
      if_cases
        (λ (w : Outcome BetRecoveryResult × S).
          Resolved id st pnl w.0 (repo.look s) (repo.look w.1))
        (is_state b.state unknown)
        (λ (u : is_state b.state unknown ≡ true).
          written-Resolved b s (repo.update id (manual_update st pnl m) s)
            (manual_result id st pnl m why) (sym (repo.found id s (some b) e))
            ((is_state_iff b.state unknown).0 u) (repo.written id (manual_update st pnl m) s))
        (λ _. refused "MANUAL_RESOLVE_INVALID_STATE" refl (λ j. refl))

  -- Over any repository that keeps its contract, a manual resolution throws and changes no stored
  -- bet, or the bet was unknown and gets the state and the result that the operator gave, and no
  -- other bet changes.
  pub manual_resolve-Resolved :
      (s : S)
      → Resolved id st pnl
          (manual_resolve repo id st pnl m why s).0
          (repo.look s)
          (repo.look (manual_resolve repo id st pnl m why s).1)
  unfolding manual_resolve
  manual_resolve-Resolved s = found-Resolved (repo.find_by_id id s) s refl
