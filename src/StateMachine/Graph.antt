-- ===== src/StateMachine/Graph.antt =====
-- The transition table of transitions.ts as a graph.
use crash_wave.Prelude.{
  and_parts, dec_lt, ℕ, zero, suc, ◌≤◌, ◌<◌, ◌≡◌, refl, Bool, true, false, ◌||◌, ◌&&◌, List, [],
  ◌∷◌, arith, length, leb, not,
}
use crash_wave.StateMachine.Types.{
  BettingState, idle, ready_to_observe, observing, entry_evaluating, entry_approved, bet_placing,
  bet_active, cash_out_armed, cash_out_requested, round_complete, result_recorded, cooldown, paused,
  error, halted, reconciling, EventType, browser_ready, game_loaded, risk_rejected, bet_confirmed,
  reconcile, outcome_recorded, cooldown_elapsed, reset, pause_requested, reconciliation_complete,
  state_index, event_index, same_state, same_event,
}
use crash_wave.StateMachine.Transitions.{
  find_transitions, is_transition_defined, get_valid_events_for_state,
}
use crash_wave.StateMachine.Table.{state_of, state_of-index, event_of, event_of-index}

-- A test at every index under a bound.
each_index : (ℕ → Bool) → ℕ → Bool
each_index test zero = true
each_index test (suc k) = each_index test k && test k

each_index-at : (test : ℕ → Bool) (i k : ℕ) → i < k → each_index test k ≡ true → test i ≡ true
unfolding each_index
each_index-at test i zero under ok = elim under [ ]
each_index-at test i (suc k) under ok =
    let (before, last) = and_parts (each_index test k) (test k) ok in
    elim (dec_lt i k) [
      | yes lower ↦ each_index-at test i k lower before
      | no not_lower ↦ let here : i ≡ k = omega arith in rw here last
    ]

-- A test of all pairs of a state and an event.
all_pairs : (BettingState → EventType → Bool) → Bool
unfolding each_index state_of event_of
all_pairs p = each_index (λ s. each_index (λ e. p (state_of s) (event_of e)) 32) 16

state_index-lt : (s : BettingState) → state_index s < 16
state_index-lt idle = omega arith
state_index-lt _ = omega arith

event_index-lt : (e : EventType) → event_index e < 32
event_index-lt browser_ready = omega arith
event_index-lt _ = omega arith

all_pairs-at :
    (p : BettingState → EventType → Bool) (s : BettingState) (e : EventType)
    → all_pairs p ≡ true
    → p s e ≡ true
unfolding all_pairs
all_pairs-at p s e h = rw (state_of-index s, event_of-index e) at pair
  where
    row : each_index (λ e'. p (state_of (state_index s)) (event_of e')) 32 ≡ true
    row =
        each_index-at (λ s'. each_index (λ e'. p (state_of s') (event_of e')) 32) (state_index s) 16
          (state_index-lt s) h

    pair : p (state_of (state_index s)) (event_of (event_index e)) ≡ true
    pair =
        each_index-at (λ e'. p (state_of (state_index s)) (event_of e')) (event_index e) 32
          (event_index-lt e) row

one_rule_all : all_pairs (λ s e. leb (length (find_transitions s e)) 1) ≡ true
unfolding all_pairs find_transitions
one_rule_all = refl

leb→le : (a b : ℕ) → leb a b ≡ true → a ≤ b
leb→le a b h = ground arith

abbrev same_bool : Bool → Bool → Bool
same_bool true b = b
same_bool false b = not b

same_bool→eq : (a b : Bool) → same_bool a b ≡ true → a ≡ b
same_bool→eq true true h = refl
same_bool→eq true false h = cc
same_bool→eq false true h = cc
same_bool→eq false false h = refl

-- Whether the table has a rule from `s` under `e` to `t` that needs no guard.
pub has_rule : BettingState → EventType → BettingState → Bool
unfolding find_transitions
has_rule s e t = elim (find_transitions s e) [
  | [] ↦ false
  | r ∷ _ ↦ same_state r.to t && not r.requires_guard
]

-- Each state has at most one rule for an event, so that taking the first loses none.
pub length-find_transitions : (s : BettingState) (e : EventType) → length (find_transitions s e) ≤ 1
length-find_transitions s e = leb→le _ _ (all_pairs-at _ s e one_rule_all)

pub contains : EventType → List EventType → Bool
contains e [] = false
contains e (x ∷ xs) = same_event x e || contains e xs

views_agree_all :
    all_pairs
      (λ s e. same_bool (is_transition_defined s e) (contains e (get_valid_events_for_state s)))
    ≡ true
unfolding all_pairs is_transition_defined get_valid_events_for_state contains
views_agree_all = refl

-- The machine has a rule for an event exactly if the event is listed as valid in the state.
pub is_transition_defined-valid_events :
    (s : BettingState) (e : EventType)
    → is_transition_defined s e ≡ contains e (get_valid_events_for_state s)
is_transition_defined-valid_events s e = same_bool→eq _ _ (all_pairs-at _ s e views_agree_all)

-- An edge of the table: an unguarded rule leads from the first state to the second.
pub data Edge (s t : BettingState) : Type 0 where
  edge : (e : EventType) → has_rule s e t ≡ true → Edge s t

pub data Walk : BettingState → BettingState → Type 0 where
  here : {s : BettingState} → Walk s s
  step : {s t u : BettingState} → Edge s t → Walk t u → Walk s u

-- One step of a shortest way to OBSERVING.
via : {s t u : BettingState} (e : EventType) → has_rule s e t ≡ true → Walk t u → Walk s u
via e h w = step (edge e h) w

from_idle : Walk idle observing
unfolding has_rule
from_idle = via {t = ready_to_observe} browser_ready refl (via game_loaded refl here)

from_bet_active : Walk bet_active observing
unfolding has_rule
from_bet_active = via {t = reconciling} reconcile refl (via reconciliation_complete refl here)

-- From every state a sequence of rules without a guard leads back to OBSERVING.
pub Walk-observing : (s : BettingState) → Walk s observing
unfolding has_rule
Walk-observing idle = from_idle
Walk-observing ready_to_observe = via game_loaded refl here
Walk-observing observing = here
Walk-observing entry_evaluating = via risk_rejected refl here
Walk-observing entry_approved =
    via {t = paused} pause_requested refl (via {t = idle} reset refl from_idle)
Walk-observing bet_placing = via {t = bet_active} bet_confirmed refl from_bet_active
Walk-observing bet_active = from_bet_active
Walk-observing cash_out_armed =
    via {t = reconciling} reconcile refl (via reconciliation_complete refl here)
Walk-observing cash_out_requested =
    via {t = reconciling} reconcile refl (via reconciliation_complete refl here)
Walk-observing round_complete =
    via {t = result_recorded} outcome_recorded refl
      (via {t = cooldown} cooldown_elapsed refl (via cooldown_elapsed refl here))
Walk-observing result_recorded =
    via {t = cooldown} cooldown_elapsed refl (via cooldown_elapsed refl here)
Walk-observing cooldown = via cooldown_elapsed refl here
Walk-observing paused = via {t = idle} reset refl from_idle
Walk-observing error = via {t = idle} reset refl from_idle
Walk-observing halted = via {t = idle} reset refl from_idle
Walk-observing reconciling = via reconciliation_complete refl here
