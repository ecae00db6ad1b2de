-- ===== src/StateMachine/Entry.antt =====
-- The gate before a bet: what must hold when the machine moves to BET_PLACING.
use crash_wave.Prelude.{
  ℕ, ◌≡◌, ◌≢◌, refl, Bool, true, false, ◌&&◌, ◌||◌, not, none, some, arith, head?,
}
use crash_wave.StateMachine.Types.{
  entry_approved, bet_placing, EventType, entry_checks_passed, bet_submitted, StateMachineEvent,
  StateMachineContext, event_type, same_state,
}
use crash_wave.StateMachine.Transitions.{TransitionRule, find_transitions}
use crash_wave.StateMachine.Guards.{
  permitted, event_round_id, guard_all_entry_conditions, guard_can_place_bet,
}
use crash_wave.StateMachine.Effects.{preload_context_from_event, evaluate_guard}
use crash_wave.StateMachine.Dispatch.{BettingStateMachine, preloaded, send}
use crash_wave.StateMachine.Table.{found_rule, eq_of_same_state, every_rule}
use crash_wave.StateMachine.View.{Ends, refused, to_error, followed, send-Ends}
use crash_wave.StateMachine.Safety.{EntrySafe, guard_all_entry_conditions-EntrySafe}

abbrev pub is_bet_event : EventType → Bool
is_bet_event entry_checks_passed = true
is_bet_event bet_submitted = true
is_bet_event _ = false

-- A rule into BET_PLACING leaves ENTRY_APPROVED on a bet event, under a guard.
abbrev places_from_approved : TransitionRule → Bool
places_from_approved r =
    not (same_state r.to bet_placing)
    || (same_state r.from entry_approved && r.requires_guard && is_bet_event r.event)

places_from_approved_all : every_rule places_from_approved ≡ true
unfolding every_rule
places_from_approved_all = refl

-- On a bet event the guard of ENTRY_APPROVED is the composite one; the event names no round.
place_guard :
    (now : ℕ) (ctx : StateMachineContext) (e : StateMachineEvent)
    → is_bet_event (event_type e) ≡ true
    → evaluate_guard now entry_approved ctx e ≡ permitted
    → (guard_all_entry_conditions now ctx e ≡ permitted) × (event_round_id e ≡ none)
unfolding evaluate_guard guard_can_place_bet
place_guard now ctx StateMachineEvent.entry_checks_passed b h = (h, refl)
place_guard now ctx (StateMachineEvent.bet_submitted id) b h = (h, refl)
place_guard now ctx _ b h = cc

preload-bet :
    (e : StateMachineEvent) (ctx : StateMachineContext)
    → is_bet_event (event_type e) ≡ true
    → preload_context_from_event e ctx ≡ ctx
unfolding preload_context_from_event
preload-bet (StateMachineEvent.round_started _ _) ctx b = cc
preload-bet _ ctx b = refl

placed_from_test :
    (r : TransitionRule)
    → places_from_approved r ≡ true
    → r.to ≡ bet_placing
    → (r.from ≡ entry_approved) × (r.requires_guard ≡ true) × (is_bet_event r.event ≡ true)
placed_from_test r h to = ground (arith, eq_of_same_state r.from entry_approved)

module _ (now : ℕ) (m : BettingStateMachine) (e : StateMachineEvent) where
  abbrev GatePassed : Type 0
  GatePassed =
      (m.state ≡ entry_approved)
      × EntrySafe now m.context none
      × (is_bet_event (event_type e) ≡ true)

  rule_into_bet_placing :
      (r : TransitionRule)
      → head? (find_transitions m.state (event_type e)) ≡ some r
      → (r.requires_guard ≡ true
          → evaluate_guard now m.state (preload_context_from_event e m.context) e ≡ permitted)
      → r.to ≡ bet_placing
      → GatePassed
  rule_into_bet_placing r found guard to =
      let (test, from, event) =
        found_rule places_from_approved m.state (event_type e) places_from_approved_all found in
      let placed : (r.from ≡ entry_approved)
          × (r.requires_guard ≡ true)
          × (is_bet_event r.event ≡ true) =
        placed_from_test r test to in
      let at : m.state ≡ entry_approved = cc (placed.0, from) in
      let bet : is_bet_event (event_type e) ≡ true = rw event at placed.2 in
      let permitted_here : evaluate_guard now entry_approved m.context e ≡ permitted =
        rw (at, preload-bet e m.context bet) at (guard placed.1) in
      let (all, unnamed) = place_guard now m.context e bet permitted_here in
      (at, rw unnamed at ((guard_all_entry_conditions-EntrySafe now m.context e).0 all), bet)

-- When a call of `send` takes the machine into BET_PLACING from another state, it found it in
-- ENTRY_APPROVED, with a bet event and with every entry condition met: the browser and the adapter
-- are healthy, the system is neither paused nor killed, no bet is open, the cooldown has passed, a
-- named round is ready, the balance is known, and both failure counters are below their limits. Of
-- `forceState`, which asks no guard, nothing is said.
pub send-bet_placing :
    (now : ℕ) (m : BettingStateMachine) (e : StateMachineEvent)
    → m.state ≢ bet_placing
    → (send now m e).machine.state ≡ bet_placing
    → (m.state ≡ entry_approved)
      × EntrySafe now m.context none
      × (is_bet_event (event_type e) ≡ true)
send-bet_placing now m e outside inside = go (send-Ends now m e)
  where
    go :
        Ends now (preloaded m e) e (find_transitions m.state (event_type e)) (send now m e)
        → GatePassed now m e
    go (refused same _) = absurd (outside (cc (same, inside)))
    go (to_error _ same _) = cc
    go (followed r found guard same _) =
        rule_into_bet_placing now m e r found guard (cc (same, inside))
