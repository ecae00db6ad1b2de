-- ===== src/Emergency/Complete.antt =====
-- When the cancellation in src/core/emergency-stop.ts reaches every bet.
use mathlib.Core.Path.{subst}
use text.Mathlib.Text.{◌==◌ as str_eq}
use text.Mathlib.TextEquality.{eq_iff}
use crash_wave.Prelude.{
  ℕ, ◌<◌, ◌⊎◌, ◌≡◌, refl, sym, String, Option, none, some, true, false, List, [], ◌∷◌, ◌++◌,
  Bool-cases, inl, inr, if_cases, length,
}
use crash_wave.Betting.Types.{pending, reserved, failed, Outcome, returned, threw}
use crash_wave.Bets.Types.{BetRecord, UpdateBetInput, is_state, is_state_iff}
use crash_wave.Bets.Memory.{updated, state_change}
use crash_wave.Bets.Store.{BetStore, Has, Written, update_option}
use crash_wave.Emergency.Stop.{
  cancelled_reason, counted, cancel_each, cancel_found, cancel_reserved, cancel_pending_bets,
  EmergencyStop, EmergencyStopResult, EmergencyStopState, EmergencyStopConfig, StopEnv,
  is_triggered, trigger, by_executors, halted,
}
use crash_wave.Emergency.Cancelled.{Settled, Has-append_left, Has-append_right}

-- The repository answers every call.
pub record Answers {S : Type 0} (repo : BetStore S) : Type 0 where
  pub updates :
      (id : String) (input : UpdateBetInput) (s : S)
      → (o : Option BetRecord) × ((repo.update id input s).0 ≡ returned o)

update-Settled :
    (o : Option BetRecord) → Settled (update_option (state_change failed (some cancelled_reason)) o)
unfolding updated is_state
update-Settled none = tt
update-Settled (some b) = (refl, refl)

next-Settled :
    (look1 look2 : String → Option BetRecord) (b : BetRecord) (o : Outcome (Option BetRecord))
    (a : Option BetRecord) (j : String)
    → o ≡ returned a
    → Written look1 b.id (state_change failed (some cancelled_reason)) o look2
    → (b.id ≡ j) ⊎ Settled (look1 j)
    → Settled (look2 j)
next-Settled look1 look2 b (threw m) a j e h k = cc
next-Settled look1 look2 b (returned x) a j e h k = subst Settled (sym (h j)) (
    if_cases Settled (str_eq b.id j) (λ _. update-Settled (look1 b.id))
      (λ (miss : str_eq b.id j ≡ false). other miss k))
  where
    other : str_eq b.id j ≡ false → (b.id ≡ j) ⊎ Settled (look1 j) → Settled (look1 j)
    other miss (inl e) = cc ((eq_iff b.id j).1 e)
    other miss (inr h) = h

module _ {S : Type 0} (repo : BetStore S) (up : Answers repo) where
  cancel_each-Settled :
      (bs : List BetRecord) (n : ℕ) (s : S) (j : String)
      → Has j bs ⊎ Settled (repo.look s j)
      → Settled (repo.look (cancel_each repo bs n s).1 j)
  unfolding cancel_each
  cancel_each-Settled [] n s j (inl h) = absurd h
  cancel_each-Settled [] n s j (inr h) = h
  cancel_each-Settled (b ∷ bs) n s j h =
      let input = state_change failed (some cancelled_reason) in
      let u = repo.update b.id input s in
      let a = up.updates b.id input s in
      cancel_each-Settled bs (counted repo u.0 n) u.1 j (
        one_more h
          (next-Settled (repo.look s) (repo.look u.1) b u.0 a.0 j a.1 (repo.written b.id input s)))
    where
      one_more : {A B C D : Type 0} → (A ⊎ B) ⊎ C → (A ⊎ C → D) → B ⊎ D
      one_more (inl (inl a)) f = inr (f (inl a))
      one_more (inl (inr b)) f = inl b
      one_more (inr c) f = inr (f (inr c))

  waits_or_settled :
      (s : S) (ps rs : List BetRecord) (j : String) (o : Option BetRecord)
      → repo.find_by_state pending 100 s ≡ returned ps
      → repo.find_by_state reserved 100 s ≡ returned rs
      → length ps < 100
      → length rs < 100
      → repo.look s j ≡ o
      → Has j (ps ++ rs) ⊎ Settled o
  waits_or_settled s ps rs j none ep er lp lr h = inr tt
  waits_or_settled s ps rs j (some b) ep er lp lr h = elim (Bool-cases (is_state b.state pending)) [
    | inl p ↦ inl (
        Has-append_left j ps rs
          (repo.all_listed pending 100 s ps j b ep lp h ((is_state_iff b.state pending).0 p)))
    | inr p ↦ elim (Bool-cases (is_state b.state reserved)) [
      | inl r ↦ inl (
          Has-append_right j ps rs
            (repo.all_listed reserved 100 s rs j b er lr h ((is_state_iff b.state reserved).0 r)))
      | inr r ↦ inr (p, r)
    ]
  ]

  cancel_pending_bets-Settled :
      (s : S) (ps rs : List BetRecord) (j : String)
      → repo.find_by_state pending 100 s ≡ returned ps
      → repo.find_by_state reserved 100 s ≡ returned rs
      → length ps < 100
      → length rs < 100
      → Settled (repo.look (cancel_pending_bets repo s).1 j)
  unfolding cancel_pending_bets cancel_found cancel_reserved
  cancel_pending_bets-Settled s ps rs j ep er lp lr =
      rw (ep, er)
        (cancel_each-Settled (ps ++ rs) 0 s j
          (waits_or_settled s ps rs j (repo.look s j) ep er lp lr refl))

  by_executors-Settled :
      (o : Outcome (Unit {0})) (c : EmergencyStopConfig) (env : StopEnv) (why : String)
      (e : EmergencyStop S) (j : String)
      → o ≡ returned tt
      → c.attempt_cancel_pending ≡ true
      → Settled (repo.look (cancel_pending_bets repo e.store).1 j)
      → Settled (repo.look (by_executors repo o c env why e).1.store j)
  unfolding by_executors halted
  by_executors-Settled (threw m) c env why e j x a h = cc
  by_executors-Settled (returned _) c env why e j x a h =
      if_cases (λ (w : ℕ × S). Settled (repo.look w.1 j)) c.attempt_cancel_pending (λ _. h)
        (λ (b : c.attempt_cancel_pending ≡ false). cc)

  -- When the gate is open, the configuration asks for the cancellation, the executors stop, the
  -- repository answers, and fewer than 100 bets are pending and fewer than 100 reserved, a trigger
  -- leaves no bet pending or reserved.
  pub trigger-Settled :
      (c : EmergencyStopConfig) (env : StopEnv) (why : String) (e : EmergencyStop S)
      (ps rs : List BetRecord) (j : String)
      → is_triggered e ≡ false
      → c.attempt_cancel_pending ≡ true
      → env.stop_executors ≡ returned tt
      → repo.find_by_state pending 100 e.store ≡ returned ps
      → repo.find_by_state reserved 100 e.store ≡ returned rs
      → length ps < 100
      → length rs < 100
      → Settled (repo.look (trigger repo c env why e).1.store j)
  unfolding trigger
  trigger-Settled c env why e ps rs j g a x ep er lp lr =
      if_cases (λ (w : EmergencyStopResult × EmergencyStop S). Settled (repo.look w.1.store j))
        (is_triggered e) (λ (shut : is_triggered e ≡ true). cc)
        (λ _.
          by_executors-Settled env.stop_executors c env why
            (record e { state = EmergencyStopState.triggered; trigger_reason = some why }) j x a
            (cancel_pending_bets-Settled e.store ps rs j ep er lp lr))
