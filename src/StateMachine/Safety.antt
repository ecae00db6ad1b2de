-- ===== src/StateMachine/Safety.antt =====
-- What the entry guards of guards.ts promise of the context, as an independent description.
use crash_wave.Prelude.{
  ℕ, ◌+◌, ◌≤◌, ◌<◌, ◌≡◌, ◌↔◌, ◌||◌, true, false, Option, none, some, String, List, [], ◌∷◌, arith,
  is_some, truthy?,
}
use crash_wave.StateMachine.Types.{
  RoundState, ObservationConfidence, StateMachineEvent, StateMachineContext,
}
use crash_wave.StateMachine.Guards.{
  GuardResult, permitted, rejected, level, is_bettable, first_rejection, event_round_id,
  guard_browser_healthy, guard_game_adapter_healthy, guard_not_paused, guard_kill_switch_off,
  guard_no_open_bet, guard_cooldown_elapsed, guard_round_valid, guard_observation_confidence,
  guard_balance_known, guard_error_threshold, guard_cash_out_failure_threshold,
  guard_all_entry_conditions,
}

-- The last bet is at least the cooldown ago, if there was one.
abbrev pub Cooled : ℕ → ℕ → Option ℕ → Type 0
Cooled now cooldown none = Unit
Cooled now cooldown (some last) = last + cooldown ≤ now

-- There is a round in a phase that takes bets, seen with at least the confidence required, and
-- the context or the event names it.
abbrev pub RoundReady :
    ObservationConfidence → Option String → Option String → Option RoundState → Type 0
RoundReady required current event none = ⊥
RoundReady required current event (some r) =
    ((truthy? current || truthy? event) ≡ true)
    × (is_bettable r.phase ≡ true)
    × (level required ≤ level r.confidence)

pub record EntrySafe (now : ℕ) (ctx : StateMachineContext) (event_round : Option String)
    : Type 0 where
  pub browser : ctx.browser_healthy ≡ true
  pub adapter : ctx.game_adapter_healthy ≡ true
  pub running : ctx.is_paused ≡ false
  pub armed : ctx.kill_switch ≡ false
  pub single : ctx.open_bet_exists ≡ false
  pub cooled : Cooled now ctx.cooldown_ms ctx.last_bet_at
  pub round :
      RoundReady ctx.min_confidence_for_entry ctx.current_round_id event_round ctx.round_state
  pub funded : is_some ctx.current_balance ≡ true
  pub errors : ctx.consecutive_errors < ctx.max_consecutive_errors
  pub cash_outs : ctx.cash_out_failures < ctx.max_cash_out_failures

abbrev AllPermitted : List GuardResult → Type 0
AllPermitted [] = Unit
AllPermitted (g ∷ gs) = (g ≡ permitted) × AllPermitted gs

first_rejection-AllPermitted :
    (gs : List GuardResult) → first_rejection gs ≡ permitted → AllPermitted gs
first_rejection-AllPermitted [] h = tt
first_rejection-AllPermitted (permitted ∷ gs) h =
    let rest = first_rejection-AllPermitted gs h in (ground arith, rest)
first_rejection-AllPermitted (rejected r ∷ gs) h = cc

AllPermitted-first_rejection :
    (gs : List GuardResult) → AllPermitted gs → first_rejection gs ≡ permitted
AllPermitted-first_rejection [] h = ground arith
AllPermitted-first_rejection (permitted ∷ gs) h = AllPermitted-first_rejection gs h.1
AllPermitted-first_rejection (rejected r ∷ gs) h = cc

-- The guards that `guardAllEntryConditions` goes through.
abbrev entry_guards : ℕ → StateMachineContext → Option String → List GuardResult
entry_guards now ctx event_round =
    guard_browser_healthy ctx
    ∷ guard_game_adapter_healthy ctx
    ∷ guard_not_paused ctx
    ∷ guard_kill_switch_off ctx
    ∷ guard_no_open_bet ctx
    ∷ guard_cooldown_elapsed now ctx
    ∷ guard_round_valid ctx event_round
    ∷ guard_observation_confidence ctx
    ∷ guard_balance_known ctx
    ∷ guard_error_threshold ctx
    ∷ guard_cash_out_failure_threshold ctx
    ∷ []

module _ (now : ℕ) (ctx : StateMachineContext) where
  guard_browser_healthy_iff : (guard_browser_healthy ctx ≡ permitted) ↔ (ctx.browser_healthy ≡ true)
  unfolding guard_browser_healthy
  guard_browser_healthy_iff = (λ h. ground arith, λ h. ground arith)

  guard_game_adapter_healthy_iff :
      (guard_game_adapter_healthy ctx ≡ permitted) ↔ (ctx.game_adapter_healthy ≡ true)
  unfolding guard_game_adapter_healthy
  guard_game_adapter_healthy_iff = (λ h. ground arith, λ h. ground arith)

  guard_not_paused_iff : (guard_not_paused ctx ≡ permitted) ↔ (ctx.is_paused ≡ false)
  unfolding guard_not_paused
  guard_not_paused_iff = (λ h. ground arith, λ h. ground arith)

  guard_kill_switch_off_iff : (guard_kill_switch_off ctx ≡ permitted) ↔ (ctx.kill_switch ≡ false)
  unfolding guard_kill_switch_off
  guard_kill_switch_off_iff = (λ h. ground arith, λ h. ground arith)

  guard_no_open_bet_iff : (guard_no_open_bet ctx ≡ permitted) ↔ (ctx.open_bet_exists ≡ false)
  unfolding guard_no_open_bet
  guard_no_open_bet_iff = (λ h. ground arith, λ h. ground arith)

  guard_cooldown_elapsed_iff :
      (guard_cooldown_elapsed now ctx ≡ permitted) ↔ (Cooled now ctx.cooldown_ms ctx.last_bet_at)
  unfolding guard_cooldown_elapsed
  guard_cooldown_elapsed_iff = (λ h. ground arith, λ h. ground arith)

  guard_balance_known_iff :
      (guard_balance_known ctx ≡ permitted) ↔ (is_some ctx.current_balance ≡ true)
  unfolding guard_balance_known
  guard_balance_known_iff = (λ h. ground arith, λ h. ground arith)

  guard_error_threshold_iff :
      (guard_error_threshold ctx ≡ permitted)
      ↔ (ctx.consecutive_errors < ctx.max_consecutive_errors)
  unfolding guard_error_threshold
  guard_error_threshold_iff = (λ h. ground arith, λ h. ground arith)

  guard_cash_out_failure_threshold_iff :
      (guard_cash_out_failure_threshold ctx ≡ permitted)
      ↔ (ctx.cash_out_failures < ctx.max_cash_out_failures)
  unfolding guard_cash_out_failure_threshold
  guard_cash_out_failure_threshold_iff = (λ h. ground arith, λ h. ground arith)

  guard_round_iff :
      (event_round : Option String)
      → ((guard_round_valid ctx event_round ≡ permitted)
          × (guard_observation_confidence ctx ≡ permitted))
        ↔ RoundReady ctx.min_confidence_for_entry ctx.current_round_id event_round ctx.round_state
  unfolding guard_round_valid guard_observation_confidence
  guard_round_iff event_round = (λ h. ground arith, λ h. ground arith)

-- The guards of the composite, one by one.
guard_all_entry_conditions-AllPermitted :
    (now : ℕ) (ctx : StateMachineContext) (e : StateMachineEvent)
    → guard_all_entry_conditions now ctx e ≡ permitted
    → AllPermitted (entry_guards now ctx (event_round_id e))
unfolding guard_all_entry_conditions
guard_all_entry_conditions-AllPermitted now ctx e =
    first_rejection-AllPermitted (entry_guards now ctx (event_round_id e))

AllPermitted-guard_all_entry_conditions :
    (now : ℕ) (ctx : StateMachineContext) (e : StateMachineEvent)
    → AllPermitted (entry_guards now ctx (event_round_id e))
    → guard_all_entry_conditions now ctx e ≡ permitted
unfolding guard_all_entry_conditions
AllPermitted-guard_all_entry_conditions now ctx e =
    AllPermitted-first_rejection (entry_guards now ctx (event_round_id e))

EntrySafe-of_guards :
    (now : ℕ) (ctx : StateMachineContext) (event_round : Option String)
    → AllPermitted (entry_guards now ctx event_round)
    → EntrySafe now ctx event_round
EntrySafe-of_guards now ctx event_round (a, (b, (c, (d, (e, (f, (g, (h, (i, (j, (k, _))))))))))) =
    record {
      browser = (guard_browser_healthy_iff now ctx).0 a;
      adapter = (guard_game_adapter_healthy_iff now ctx).0 b;
      running = (guard_not_paused_iff now ctx).0 c;
      armed = (guard_kill_switch_off_iff now ctx).0 d;
      single = (guard_no_open_bet_iff now ctx).0 e;
      cooled = (guard_cooldown_elapsed_iff now ctx).0 f;
      round = (guard_round_iff now ctx event_round).0 (g, h);
      funded = (guard_balance_known_iff now ctx).0 i;
      errors = (guard_error_threshold_iff now ctx).0 j;
      cash_outs = (guard_cash_out_failure_threshold_iff now ctx).0 k;
    }

guards-of_EntrySafe :
    (now : ℕ) (ctx : StateMachineContext) (event_round : Option String)
    → EntrySafe now ctx event_round
    → AllPermitted (entry_guards now ctx event_round)
guards-of_EntrySafe now ctx event_round s =
    let round = (guard_round_iff now ctx event_round).1 s.round in
    (
      (guard_browser_healthy_iff now ctx).1 s.browser,
      (
        (guard_game_adapter_healthy_iff now ctx).1 s.adapter,
        (
          (guard_not_paused_iff now ctx).1 s.running,
          (
            (guard_kill_switch_off_iff now ctx).1 s.armed,
            (
              (guard_no_open_bet_iff now ctx).1 s.single,
              (
                (guard_cooldown_elapsed_iff now ctx).1 s.cooled,
                (
                  round.0,
                  (
                    round.1,
                    (
                      (guard_balance_known_iff now ctx).1 s.funded,
                      (
                        (guard_error_threshold_iff now ctx).1 s.errors,
                        ((guard_cash_out_failure_threshold_iff now ctx).1 s.cash_outs, tt),
                      ),
                    ),
                  ),
                ),
              ),
            ),
          ),
        ),
      ),
    )

-- The entry guards permit a context and an event exactly when browser and adapter are healthy, the
-- system is neither paused nor killed, no bet is open, the cooldown has passed, a named round in a
-- bettable phase is seen with enough confidence, the balance is known, and both failure counters
-- are below their limits.
pub guard_all_entry_conditions-EntrySafe :
    (now : ℕ) (ctx : StateMachineContext) (e : StateMachineEvent)
    → (guard_all_entry_conditions now ctx e ≡ permitted) ↔ EntrySafe now ctx (event_round_id e)
guard_all_entry_conditions-EntrySafe now ctx e = (
  λ h. EntrySafe-of_guards now ctx _ (guard_all_entry_conditions-AllPermitted now ctx e h),
  λ s. AllPermitted-guard_all_entry_conditions now ctx e (guards-of_EntrySafe now ctx _ s),
)
