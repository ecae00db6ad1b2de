-- ===== src/StateMachine/Transitions.antt =====
-- src/core/state-machine/transitions.ts.
use crash_wave.Prelude.{Bool, true, false, String, List, [], ◌∷◌, ◌&&◌, select, if◌then◌else◌}
use crash_wave.StateMachine.Types.{
  BettingState, idle, ready_to_observe, observing, entry_evaluating, entry_approved, bet_placing,
  bet_active, cash_out_armed, cash_out_requested, round_complete, result_recorded, cooldown, paused,
  error, halted, reconciling, EventType, browser_ready, authenticated, game_loaded, round_started,
  risk_approved, risk_rejected, entry_checks_passed, entry_checks_failed, bet_submitted,
  bet_confirmed, bet_placement_failed, bet_placement_timeout, multiplier_reached_target,
  cash_out_triggered, cash_out_confirmed, cash_out_failed, cash_out_timeout, round_crashed,
  outcome_recorded, cooldown_elapsed, pause_requested, resume_requested, recover, recovery_complete,
  reconcile, reconciliation_complete, stale_multiplier, health_degraded, critical_error, halt,
  reset, same_state, same_event,
}

pub record TransitionRule : Type 0 where
  pub from : BettingState
  pub event : EventType
  pub to : BettingState
  pub requires_guard : Bool
  pub description : String

rule : BettingState → EventType → BettingState → Bool → String → TransitionRule
rule f e t g d = record { from = f; event = e; to = t; requires_guard = g; description = d }

unfoldable pub transition_rules : List TransitionRule
unfolding rule
transition_rules =
    rule idle browser_ready ready_to_observe false "Browser launched and responsive"
    ∷ rule ready_to_observe authenticated ready_to_observe false "Session authenticated"
    ∷ rule ready_to_observe game_loaded observing false "Crash game page loaded"
    ∷ rule observing round_started entry_evaluating true
        "New round started — evaluate entry conditions"
    ∷ rule cooldown round_started entry_evaluating true "New round after cooldown — evaluate entry"
    ∷ rule entry_evaluating risk_approved entry_approved true
        "Risk engine approved entry — all guards pass"
    ∷ rule entry_evaluating risk_rejected observing false
        "Risk engine rejected entry — return to observation"
    ∷ rule entry_evaluating entry_checks_failed observing false
        "Entry checks failed — return to observation"
    ∷ rule entry_approved entry_checks_passed bet_placing true
        "All entry checks confirmed — place bet"
    ∷ rule entry_approved bet_submitted bet_placing true "Bet submission initiated"
    ∷ rule bet_placing bet_confirmed bet_active false "Bet confirmed by game"
    ∷ rule bet_placing bet_placement_failed error false "Bet placement failed"
    ∷ rule bet_placing bet_placement_timeout error false "Bet placement timed out"
    ∷ rule bet_active multiplier_reached_target cash_out_armed false
        "Target multiplier reached — arm cash-out"
    ∷ rule bet_active round_crashed round_complete false "Round crashed before cash-out — bet lost"
    ∷ rule cash_out_armed cash_out_triggered cash_out_requested true "Cash-out action triggered"
    ∷ rule cash_out_requested cash_out_confirmed round_complete false "Cash-out confirmed — bet won"
    ∷ rule cash_out_requested cash_out_failed error false "Cash-out failed"
    ∷ rule cash_out_requested cash_out_timeout error false "Cash-out timed out"
    ∷ rule cash_out_requested round_crashed round_complete false
        "Round crashed during cash-out request — bet lost"
    ∷ rule round_complete outcome_recorded result_recorded false "Outcome persisted to ledger"
    ∷ rule result_recorded cooldown_elapsed cooldown false "Post-round cooldown period"
    ∷ rule cooldown cooldown_elapsed observing false "Cooldown complete — resume observation"
    ∷ rule observing pause_requested paused false "Operator requested pause"
    ∷ rule entry_evaluating pause_requested paused false "Operator paused during evaluation"
    ∷ rule entry_approved pause_requested paused false "Operator paused after approval"
    ∷ rule cooldown pause_requested paused false "Operator paused during cooldown"
    ∷ rule paused resume_requested observing true "Operator requested resume"
    ∷ rule observing stale_multiplier error false "Multiplier data stale"
    ∷ rule observing health_degraded error false "Health degraded during observation"
    ∷ rule entry_evaluating health_degraded error false "Health degraded during evaluation"
    ∷ rule bet_placing health_degraded error false "Health degraded during bet placement"
    ∷ rule bet_active health_degraded error false "Health degraded while bet active"
    ∷ rule cash_out_requested health_degraded error false "Health degraded during cash-out"
    ∷ rule bet_active critical_error error false "Critical error while bet active"
    ∷ rule bet_placing critical_error error false "Critical error during bet placement"
    ∷ rule cash_out_requested critical_error error false "Critical error during cash-out"
    ∷ rule observing critical_error error false "Critical error during observation"
    ∷ rule observing reconcile reconciling false "Socket drop — enter reconciliation"
    ∷ rule entry_evaluating reconcile reconciling false "Socket drop during evaluation"
    ∷ rule bet_placing reconcile reconciling false "Socket drop during bet placement"
    ∷ rule bet_active reconcile reconciling false "Socket drop while bet active"
    ∷ rule cash_out_armed reconcile reconciling false "Socket drop while cash-out armed"
    ∷ rule cash_out_requested reconcile reconciling false "Socket drop during cash-out"
    ∷ rule cooldown reconcile reconciling false "Socket drop during cooldown"
    ∷ rule error recover reconciling true "Attempt recovery from error"
    ∷ rule error reconcile reconciling false "Enter reconciliation mode"
    ∷ rule reconciling reconciliation_complete observing false
        "Reconciliation finished — resume observation"
    ∷ rule reconciling recovery_complete observing false "Recovery complete — resume observation"
    ∷ rule error halt halted false "Halt from error state"
    ∷ rule observing halt halted false "Emergency halt from observation"
    ∷ rule paused halt halted false "Emergency halt from paused"
    ∷ rule reconciling halt halted false "Halt during reconciliation"
    ∷ rule bet_active halt halted false "Emergency halt with active bet"
    ∷ rule halted reset idle false "Reset from halted to idle"
    ∷ rule error reset idle false "Reset from error to idle"
    ∷ rule paused reset idle false "Reset from paused to idle"
    ∷ []

-- `findTransitions`: the rules of a state and an event, in the order of the table.
unfoldable pub find_transitions : BettingState → EventType → List TransitionRule
unfolding transition_rules
find_transitions s e = select (λ r. same_state r.from s && same_event r.event e) transition_rules

unfoldable pub is_transition_defined : BettingState → EventType → Bool
unfolding find_transitions
is_transition_defined s e = elim (find_transitions s e) [ [] ↦ false | _ ∷ _ ↦ true ]

-- Appends a value to a set that keeps the order of insertion, unless it is there.
add_event : EventType → List EventType → List EventType
add_event e [] = e ∷ []
add_event e (x ∷ xs) = let rest = add_event e xs in if same_event x e then x ∷ xs else x ∷ rest

add_state : BettingState → List BettingState → List BettingState
add_state s [] = s ∷ []
add_state s (x ∷ xs) = let rest = add_state s xs in if same_state x s then x ∷ xs else x ∷ rest

collect_events : BettingState → List TransitionRule → List EventType → List EventType
collect_events from [] acc = acc
collect_events from (r ∷ rs) acc =
    collect_events from rs (if same_state r.from from then add_event r.event acc else acc)

collect_states : BettingState → List TransitionRule → List BettingState → List BettingState
collect_states from [] acc = acc
collect_states from (r ∷ rs) acc =
    collect_states from rs (if same_state r.from from then add_state r.to acc else acc)

unfoldable pub get_valid_events_for_state : BettingState → List EventType
unfolding collect_events add_event transition_rules
get_valid_events_for_state from = collect_events from transition_rules []

unfoldable pub get_reachable_states : BettingState → List BettingState
unfolding collect_states add_state transition_rules
get_reachable_states from = collect_states from transition_rules []
