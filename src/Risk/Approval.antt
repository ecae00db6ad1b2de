-- ===== src/Risk/Approval.antt =====
-- What an approval of risk-engine.ts requires, as an independent description.
use Prim.Native.Nat.{ℕ, ◌+◌, ◌≤◌, ◌<◌}
use crash_wave.Prelude.{
  ◌≡◌, refl, ◌↔◌, Bool, true, false, ◌||◌, Option, none, some, List, [], ◌∷◌, arith, Bool-cases,
  inl, inr,
}
use crash_wave.Risk.Circuit.{CircuitState}
use crash_wave.Risk.Engine.{
  Mode, observe_only, dry_run, live, maintenance, RiskEvaluationInput, Message, evaluate_prediction,
  evaluate_all_conditions, collect_failures, from_failures, is_open_state, evaluate, is_dry_run,
  is_live, round_valid, confidence_high, balance_sufficient,
}

-- What the mode asks of the session and the balance: a dry run needs no session, and may have no
-- balance.
abbrev pub Covered : ℕ → Option ℕ → Type 0
Covered required none = ⊥
Covered required (some b) = required ≤ b

abbrev pub NotShort : ℕ → Option ℕ → Type 0
NotShort required none = Unit
NotShort required (some b) = required ≤ b

abbrev pub ModeReady : Mode → Bool → ℕ → Option ℕ → Type 0
ModeReady live authenticated required balance = (authenticated ≡ true) × Covered required balance
ModeReady dry_run authenticated required balance = NotShort required balance
ModeReady _ authenticated required balance = ⊥

pub record Approvable (now : ℕ) (circuit : CircuitState) (i : RiskEvaluationInput) : Type 0 where
  pub circuit_ok : is_open_state circuit ≡ false
  pub mode_ready :
      ModeReady i.mode i.session_authenticated
        (i.required_stake + i.balance_buffer)
        i.current_balance
  pub operator : i.operator_authorized ≡ true
  pub game : i.game_loaded ≡ true
  pub round : (round_valid i.round_state ≡ true) × (confidence_high i.round_state ≡ true)
  pub daily : i.daily_entries_confirmed < i.max_daily_entries
  pub running : (i.paused ≡ false) × (i.kill_switch ≡ false)
  pub healthy : (i.browser_healthy ≡ true) × (i.game_adapter_healthy ≡ true)
  pub single : (i.open_bet_exists ≡ false) × (i.cooldown_elapsed ≡ true)
  pub errors : i.consecutive_errors < i.max_consecutive_errors
  pub cash_outs : i.cash_out_failures < i.max_cash_out_failures
  pub prediction : evaluate_prediction now i ≡ true

abbrev AllHold : List (Bool × Message) → Type 0
AllHold [] = Unit
AllHold ((ok, m) ∷ cs) = (ok ≡ true) × AllHold cs

approved_holds :
    (cs : List (Bool × Message))
    → (from_failures (collect_failures cs)).approved ≡ true
    → AllHold cs
unfolding collect_failures
approved_holds [] h = tt
approved_holds ((true, m) ∷ cs) h = (refl, approved_holds cs h)
approved_holds ((false, m) ∷ cs) h = cc

holds_approved :
    (cs : List (Bool × Message))
    → AllHold cs
    → (from_failures (collect_failures cs)).approved ≡ true
unfolding collect_failures
holds_approved [] h = refl
holds_approved ((true, m) ∷ cs) h = holds_approved cs h.1
holds_approved ((false, m) ∷ cs) h = cc

-- The three conditions on the mode together.
abbrev ModeTests : Mode → Bool → ℕ → Option ℕ → Type 0
ModeTests m a required balance =
    ((is_live m || is_dry_run m) ≡ true)
    × ((is_dry_run m || a) ≡ true)
    × (balance_sufficient (is_dry_run m) balance required ≡ true)

ready-tests :
    (m : Mode) (a : Bool) (required : ℕ) (b : Option ℕ)
    → ModeTests m a required b
    → ModeReady m a required b
ready-tests live a required none h = cc
ready-tests live a required (some b) h = (h.1, ground (arith, h.2))
ready-tests dry_run a required none h = tt
ready-tests dry_run a required (some b) h = ground (arith, h.2)
ready-tests observe_only a required b h = cc
ready-tests maintenance a required b h = cc

tests-ready :
    (m : Mode) (a : Bool) (required : ℕ) (b : Option ℕ)
    → ModeReady m a required b
    → ModeTests m a required b
tests-ready live a required none h = absurd h.1
tests-ready live a required (some b) h = (refl, h.0, ground (arith, h.1))
tests-ready dry_run a required none h = (refl, refl, refl)
tests-ready dry_run a required (some b) h = (refl, refl, ground (arith, h))
tests-ready observe_only a required b h = absurd h
tests-ready maintenance a required b h = absurd h

holds-Approvable :
    (now : ℕ) (circuit : CircuitState) (i : RiskEvaluationInput)
    → is_open_state circuit ≡ false
    → AllHold (evaluate_all_conditions now i)
    → Approvable now circuit i
unfolding evaluate_all_conditions
holds-Approvable now circuit i c
      (
        mode,
        (
          op,
          (
            auth,
            (
              game,
              (
                round,
                (
                  money,
                  (
                    daily,
                    (
                      paused,
                      (
                        kill,
                        (browser, (adapter, (conf, (bet, (cool, (errs, (outs, (pred, _)))))))),
                      ),
                    ),
                  ),
                ),
              ),
            ),
          ),
        ),
      ) =
    record {
      circuit_ok = c;
      mode_ready =
          ready-tests i.mode i.session_authenticated (i.required_stake + i.balance_buffer)
            i.current_balance (mode, auth, money);
      operator = op;
      game = game;
      round = (round, conf);
      daily = ground (arith, daily);
      running = (ground (arith, paused), ground (arith, kill));
      healthy = (browser, adapter);
      single = (ground (arith, bet), cool);
      errors = ground (arith, errs);
      cash_outs = ground (arith, outs);
      prediction = pred;
    }

Approvable-holds :
    (now : ℕ) (circuit : CircuitState) (i : RiskEvaluationInput)
    → Approvable now circuit i
    → AllHold (evaluate_all_conditions now i)
unfolding evaluate_all_conditions
Approvable-holds now circuit i h =
    let t =
      tests-ready i.mode i.session_authenticated (i.required_stake + i.balance_buffer)
        i.current_balance h.mode_ready in
    (
      t.0,
      (
        h.operator,
        (
          t.1,
          (
            h.game,
            (
              h.round.0,
              (
                t.2,
                (
                  ground (arith, h.daily),
                  (
                    ground (arith, h.running),
                    (
                      ground (arith, h.running),
                      (
                        h.healthy.0,
                        (
                          h.healthy.1,
                          (
                            h.round.1,
                            (
                              ground (arith, h.single),
                              (
                                h.single.1,
                                (
                                  ground (arith, h.errors),
                                  (ground (arith, h.cash_outs), (h.prediction, tt)),
                                ),
                              ),
                            ),
                          ),
                        ),
                      ),
                    ),
                  ),
                ),
              ),
            ),
          ),
        ),
      ),
    )

-- The engine approves exactly when the circuit is not open and every condition of an entry holds: in
-- live mode an authenticated session and a known balance that covers the stake and the buffer, in a
-- dry run a balance that does not fall short, and in any other mode never.
pub evaluate-Approvable :
    (now : ℕ) (circuit : CircuitState) (i : RiskEvaluationInput)
    → ((evaluate now circuit i).approved ≡ true) ↔ Approvable now circuit i
unfolding evaluate
evaluate-Approvable now circuit i = elim (Bool-cases (is_open_state circuit)) [
  | inl open_now ↦ rw open_now ((λ e. cc), (λ h. cc (open_now, h.circuit_ok)))
  | inr free ↦ rw free (
    (λ e. holds-Approvable now circuit i free (approved_holds (evaluate_all_conditions now i) e)),
    (λ h. holds_approved (evaluate_all_conditions now i) (Approvable-holds now circuit i h)),
  )
]
