-- ===== src/StateMachine/BetFlag.antt =====
-- What the states, the guards and the side effects of machine.ts say of the flag `openBetExists`.
use crash_wave.Prelude.{
  ℕ, ◌≡◌, refl, Bool, true, false, ◌||◌, ◌&&◌, not, Option, none, some, [], ◌∷◌, ◌⊎◌, inl, inr,
  and_parts,
}
use crash_wave.StateMachine.Types.{
  BettingState, observing, entry_evaluating, entry_approved, bet_placing, bet_active,
  cash_out_armed, cash_out_requested, cooldown, error, result_recorded, EventType, round_started,
  risk_approved, entry_checks_passed, bet_submitted, bet_confirmed, multiplier_reached_target,
  cash_out_triggered, cash_out_confirmed, round_crashed, reset, reconciliation_complete,
  StateMachineEvent, StateMachineContext, event_type, same_event,
}
use crash_wave.StateMachine.Transitions.{TransitionRule}
use crash_wave.StateMachine.Guards.{
  permitted, first_rejection, guard_all_entry_conditions, guard_can_evaluate_entry,
  guard_can_approve_entry, guard_can_place_bet, GuardResult, rejected,
}
use crash_wave.StateMachine.Effects.{
  preload_context_from_event, effects_of_event, effects_of_target, count_failure, evaluate_guard,
}
use crash_wave.StateMachine.Dispatch.{BettingStateMachine}
use crash_wave.StateMachine.Table.{every_rule}

-- What the state says of the flag: free on the way to a bet, held from the confirmation up to the
-- cash-out, and nothing elsewhere.
abbrev pub expects : BettingState → Option Bool
expects entry_evaluating = some false
expects entry_approved = some false
expects bet_placing = some false
expects bet_active = some true
expects cash_out_armed = some true
expects cash_out_requested = some true
expects _ = none

abbrev pub FlagOk : Option Bool → Bool → Type 0
FlagOk none flag = Unit
FlagOk (some b) flag = flag ≡ b

abbrev pub BetFlagOk : BettingStateMachine → Type 0
BetFlagOk m = FlagOk (expects m.state) m.context.open_bet_exists

-- The same, as a function of what is expected.
abbrev pub Follows : BettingStateMachine → Type 0
Follows m = (b : Bool) → expects m.state ≡ some b → m.context.open_bet_exists ≡ b

pub FlagOk-apply :
    (o : Option Bool) (flag : Bool) → FlagOk o flag → (b : Bool) → o ≡ some b → flag ≡ b
FlagOk-apply none flag h b e = cc
FlagOk-apply (some c) flag h b e = cc

pub FlagOk-intro :
    (o : Option Bool) (flag : Bool) → ((b : Bool) → o ≡ some b → flag ≡ b) → FlagOk o flag
FlagOk-intro none flag h = tt
FlagOk-intro (some b) flag h = h b refl

-- The events under whose rules the flag must be free: each is guarded in the state that it leaves.
abbrev pub is_entry_step : BettingState → EventType → Bool
is_entry_step observing round_started = true
is_entry_step cooldown round_started = true
is_entry_step entry_evaluating risk_approved = true
is_entry_step entry_approved entry_checks_passed = true
is_entry_step entry_approved bet_submitted = true
is_entry_step _ _ = false

-- The events that go on with an open bet.
abbrev pub is_bet_step : BettingState → EventType → Bool
is_bet_step bet_active multiplier_reached_target = true
is_bet_step cash_out_armed cash_out_triggered = true
is_bet_step _ _ = false

abbrev pub expects_false : Option Bool → Bool
expects_false (some false) = true
expects_false _ = false

abbrev pub expects_true : Option Bool → Bool
expects_true (some true) = true
expects_true _ = false

abbrev pub keeps_flag : TransitionRule → Bool
keeps_flag r =
    (not (expects_false (expects r.to)) || (r.requires_guard && is_entry_step r.from r.event))
    && (not (expects_true (expects r.to))
        || same_event r.event bet_confirmed
        || is_bet_step r.from r.event)

pub keeps_flag_all : every_rule keeps_flag ≡ true
unfolding every_rule
keeps_flag_all = refl

pub first_of_two : (g h : GuardResult) → first_rejection (g ∷ h ∷ []) ≡ permitted → h ≡ permitted
first_of_two permitted permitted p = refl
first_of_two permitted (rejected r) p = cc
first_of_two (rejected r) h p = cc

-- The guard of an entry step holds only if no bet is open.
pub entry_guard :
    (now : ℕ) (s : BettingState) (ctx : StateMachineContext) (e : StateMachineEvent)
    → is_entry_step s (event_type e) ≡ true
    → evaluate_guard now s ctx e ≡ permitted
    → guard_all_entry_conditions now ctx e ≡ permitted
unfolding evaluate_guard guard_can_evaluate_entry guard_can_approve_entry guard_can_place_bet
entry_guard now observing ctx (StateMachineEvent.round_started id r) b h = first_of_two _ _ h
entry_guard now cooldown ctx (StateMachineEvent.round_started id r) b h = first_of_two _ _ h
entry_guard now entry_evaluating ctx StateMachineEvent.risk_approved b h = h
entry_guard now entry_approved ctx StateMachineEvent.entry_checks_passed b h = h
entry_guard now entry_approved ctx (StateMachineEvent.bet_submitted id) b h = h
entry_guard now _ ctx _ b h = cc

-- The events whose effects write the flag.
abbrev pub writes_flag : EventType → Bool
writes_flag bet_confirmed = true
writes_flag cash_out_confirmed = true
writes_flag round_crashed = true
writes_flag reset = true
writes_flag reconciliation_complete = true
writes_flag _ = false

pub entry_step_writes :
    (s : BettingState) (t : EventType) → is_entry_step s t ≡ true → writes_flag t ≡ false
entry_step_writes observing round_started h = refl
entry_step_writes cooldown round_started h = refl
entry_step_writes entry_evaluating risk_approved h = refl
entry_step_writes entry_approved entry_checks_passed h = refl
entry_step_writes entry_approved bet_submitted h = refl
entry_step_writes _ _ h = cc

pub bet_step_writes :
    (s : BettingState) (t : EventType)
    → is_bet_step s t ≡ true
    → (writes_flag t ≡ false) × (expects s ≡ some true)
bet_step_writes bet_active multiplier_reached_target h = (refl, refl)
bet_step_writes cash_out_armed cash_out_triggered h = (refl, refl)
bet_step_writes _ _ h = cc

pub flag-count_failure :
    (e : StateMachineEvent) (ctx : StateMachineContext)
    → (count_failure e ctx).open_bet_exists ≡ ctx.open_bet_exists
unfolding count_failure
flag-count_failure StateMachineEvent.bet_placement_timeout ctx = refl
flag-count_failure _ ctx = refl

pub flag-effects_of_target :
    (now : ℕ) (e : StateMachineEvent) (to : BettingState) (ctx : StateMachineContext)
    → (effects_of_target now e to ctx).open_bet_exists ≡ ctx.open_bet_exists
unfolding effects_of_target
flag-effects_of_target now e error ctx = flag-count_failure e ctx
flag-effects_of_target now e result_recorded ctx = refl
flag-effects_of_target now e _ ctx = refl

pub flag-effects_of_event :
    (e : StateMachineEvent) (ctx : StateMachineContext)
    → writes_flag (event_type e) ≡ false
    → (effects_of_event e ctx).open_bet_exists ≡ ctx.open_bet_exists
unfolding effects_of_event
flag-effects_of_event (StateMachineEvent.bet_confirmed _) ctx h = cc
flag-effects_of_event StateMachineEvent.cash_out_confirmed ctx h = cc
flag-effects_of_event StateMachineEvent.round_crashed ctx h = cc
flag-effects_of_event StateMachineEvent.reset ctx h = cc
flag-effects_of_event StateMachineEvent.reconciliation_complete ctx h = cc
flag-effects_of_event _ ctx h = refl

pub flag-bet_confirmed :
    (e : StateMachineEvent) (ctx : StateMachineContext)
    → event_type e ≡ bet_confirmed
    → (effects_of_event e ctx).open_bet_exists ≡ true
unfolding effects_of_event
flag-bet_confirmed (StateMachineEvent.bet_confirmed _) ctx h = refl
flag-bet_confirmed _ ctx h = cc

pub flag-preload :
    (e : StateMachineEvent) (ctx : StateMachineContext)
    → (preload_context_from_event e ctx).open_bet_exists ≡ ctx.open_bet_exists
unfolding preload_context_from_event
flag-preload (StateMachineEvent.round_started _ _) ctx = refl
flag-preload _ ctx = refl

pub keeps_flag-free :
    (r : TransitionRule)
    → keeps_flag r ≡ true
    → expects r.to ≡ some false
    → (r.requires_guard ≡ true) × (is_entry_step r.from r.event ≡ true)
keeps_flag-free r h exp =
    and_parts r.requires_guard (is_entry_step r.from r.event) (and_parts _ _ (rw exp at h)).0

pub or_parts : (a b : Bool) → (a || b) ≡ true → (a ≡ true) ⊎ (b ≡ true)
or_parts true b h = inl refl
or_parts false b h = inr h

pub keeps_flag-held :
    (r : TransitionRule)
    → keeps_flag r ≡ true
    → expects r.to ≡ some true
    → (same_event r.event bet_confirmed ≡ true) ⊎ (is_bet_step r.from r.event ≡ true)
keeps_flag-held r h exp =
    or_parts (same_event r.event bet_confirmed) (is_bet_step r.from r.event) (rw exp at h)
