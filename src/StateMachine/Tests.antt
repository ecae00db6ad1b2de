-- ===== src/StateMachine/Tests.antt =====
-- Runs of the machine, and each theorem at an input of its own.
use crash_wave.Prelude.{◌≡◌, ◌≢◌, refl, true, false, some, none, List, [], ◌∷◌, ℕ, ◌≤◌, ◌↔◌, length}
use crash_wave.StateMachine.Types.{
  StateMachineEvent, running, high, observing, entry_approved, bet_placing, bet_active,
  cash_out_armed, halted, entry_checks_passed, round_crashed, RoundState, StateMachineContext,
  create_default_context,
}
use crash_wave.StateMachine.Transitions.{
  find_transitions, is_transition_defined, get_valid_events_for_state,
}
use crash_wave.StateMachine.Guards.{permitted, guard_all_entry_conditions}
use crash_wave.StateMachine.Dispatch.{BettingStateMachine, send}
use crash_wave.StateMachine.Config.{
  no_overrides, StateMachineConfig, create_state_machine, MachineCall, sending, updating,
  run_machine,
}
use crash_wave.StateMachine.Runs.{run}
use crash_wave.StateMachine.Safety.{EntrySafe, guard_all_entry_conditions-EntrySafe}
use crash_wave.StateMachine.Entry.{is_bet_event, send-bet_placing}
use crash_wave.StateMachine.Halt.{
  send-kill_switch, run-kill_switch, send-halted, send-cash_out_armed,
}
use crash_wave.StateMachine.BetFlag.{BetFlagOk}
use crash_wave.StateMachine.OpenBet.{send-BetFlagOk, run_machine-BetFlagOk}
use crash_wave.StateMachine.Graph.{
  length-find_transitions, contains, is_transition_defined-valid_events, Walk, Walk-observing,
}

abbrev a_round : RoundState
a_round = record { round_id = some "r1"; phase = running; confidence = high }

-- A context in which an entry is allowed.
abbrev ready : StateMachineContext
ready = record (create_default_context "s") {
  current_balance = some 5000;
  round_state = some a_round;
  current_round_id = some "r1";
}

abbrev live : BettingStateMachine
live = record { state = observing; context = ready }

abbrev entry : List (ℕ × StateMachineEvent)
entry =
    (10, StateMachineEvent.round_started "r1" a_round)
    ∷ (20, StateMachineEvent.risk_approved)
    ∷ (30, StateMachineEvent.bet_submitted "b1")
    ∷ (40, StateMachineEvent.bet_confirmed "b1")
    ∷ (50, StateMachineEvent.multiplier_reached_target)
    ∷ []

entry_arms : (run live entry).state ≡ cash_out_armed
unfolding run
entry_arms = refl

-- Without a known balance the round's start is refused.
unknown_balance :
    (send 10
      (record { state = observing; context = create_default_context "s" })
      (StateMachineEvent.round_started "r1" a_round)).result.accepted
    ≡ false
unfolding send
unknown_balance = refl

abbrev approved : BettingStateMachine
approved = record { state = entry_approved; context = ready }

guards_example :
    (guard_all_entry_conditions 0 ready StateMachineEvent.entry_checks_passed ≡ permitted)
    ↔ EntrySafe 0 ready none
guards_example = guard_all_entry_conditions-EntrySafe 0 ready StateMachineEvent.entry_checks_passed

send-bet_placing_example :
    (entry_approved ≡ entry_approved)
    × EntrySafe 0 ready none
    × (is_bet_event entry_checks_passed ≡ true)
unfolding send
send-bet_placing_example =
    send-bet_placing 0 approved StateMachineEvent.entry_checks_passed (λ p. cc) refl

abbrev killed : BettingStateMachine
killed = record { state = observing; context = record ready { kill_switch = true } }

send-kill_switch_example :
    (send 5 killed (StateMachineEvent.round_started "r1" a_round)).machine.context.kill_switch
    ≡ true
send-kill_switch_example =
    send-kill_switch 5 killed (StateMachineEvent.round_started "r1" a_round) refl (λ p. cc)

run-kill_switch_example :
    ((run killed ((5, StateMachineEvent.round_started "r1" a_round) ∷ [])).state ≢ bet_placing)
    × ((run killed ((5, StateMachineEvent.round_started "r1" a_round) ∷ [])).context.kill_switch
        ≡ true)
run-kill_switch_example =
    run-kill_switch killed ((5, StateMachineEvent.round_started "r1" a_round) ∷ []) refl (λ p. cc)
      (λ p. cc, tt)

abbrev stopped : BettingStateMachine
stopped = record { state = halted; context = ready }

send-halted_example :
    ((send 5 stopped StateMachineEvent.recover).machine.state ≡ halted)
    × ((send 5 stopped StateMachineEvent.recover).result.accepted ≡ false)
send-halted_example = send-halted 5 stopped StateMachineEvent.recover refl (λ p. cc)

abbrev armed : BettingStateMachine
armed = record { state = cash_out_armed; context = ready }

send-cash_out_armed_example :
    ((send 5 armed StateMachineEvent.round_crashed).machine.state ≡ cash_out_armed)
    × ((send 5 armed StateMachineEvent.round_crashed).result.accepted ≡ false)
send-cash_out_armed_example =
    send-cash_out_armed 5 armed StateMachineEvent.round_crashed refl (λ p. cc) (λ p. cc)

send-BetFlagOk_example : BetFlagOk (send 0 approved StateMachineEvent.entry_checks_passed).machine
send-BetFlagOk_example = send-BetFlagOk 0 approved StateMachineEvent.entry_checks_passed refl

abbrev observing_from : StateMachineConfig
observing_from = record {
  session_id = "s";
  initial_state = some observing;
  context_overrides = no_overrides;
}

-- The balance becomes known, and the bet of a round is placed and armed.
abbrev entry_calls : List MachineCall
entry_calls =
    updating (record no_overrides { current_balance = some (some 5000) })
    ∷ sending 10 (StateMachineEvent.round_started "r1" a_round)
    ∷ sending 20 StateMachineEvent.risk_approved
    ∷ sending 30 (StateMachineEvent.bet_submitted "b1")
    ∷ sending 40 (StateMachineEvent.bet_confirmed "b1")
    ∷ sending 50 StateMachineEvent.multiplier_reached_target
    ∷ []

calls_arm : (run_machine entry_calls (create_state_machine observing_from)).state ≡ cash_out_armed
unfolding run_machine create_state_machine
calls_arm = refl

run_machine-BetFlagOk_example :
    BetFlagOk (run_machine entry_calls (create_state_machine observing_from))
unfolding create_state_machine
run_machine-BetFlagOk_example = run_machine-BetFlagOk observing_from entry_calls tt (refl, tt)

length-find_transitions_example : length (find_transitions bet_active round_crashed) ≤ 1
length-find_transitions_example = length-find_transitions bet_active round_crashed

valid_events_example :
    is_transition_defined bet_active round_crashed
    ≡ contains round_crashed (get_valid_events_for_state bet_active)
valid_events_example = is_transition_defined-valid_events bet_active round_crashed

Walk-observing_example : Walk cash_out_armed observing
Walk-observing_example = Walk-observing cash_out_armed
