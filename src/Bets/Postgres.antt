-- ===== src/Bets/Postgres.antt =====
-- create and update of BetRepository in src/persistence/repositories/bet-repo.ts, over a database
-- connection that is a parameter. A statement is a constructor with the values that it sends.
use crash_wave.Prelude.{
  ℕ, String, Option, none, some, Bool, ◌||◌, List, [], ◌∷◌, is_some, if◌then◌else◌,
}
use crash_wave.Prelude.Int.{ℤ, pos}
use crash_wave.Betting.Types.{
  BetState, reserved, placed, confirmed, lost, reconciled, Outcome, returned, threw,
}
use crash_wave.Bets.Types.{BetRecord, CreateBetInput, UpdateBetInput, is_state}

pub data FinancialEvent : Type 0 where
  bet_intended bet_reserved bet_placed bet_confirmed cash_out_requested : FinancialEvent
  cash_out_confirmed bet_lost bet_failed bet_unknown event_reconciled : FinancialEvent

pub data SystemEvent : Type 0 where
  entry_approved bet_placed bet_failed cash_out_requested : SystemEvent
  cash_out_confirmed cash_out_failed : SystemEvent

unfoldable pub financial_event_type : BetState → FinancialEvent
financial_event_type reserved = bet_reserved
financial_event_type placed = FinancialEvent.bet_placed
financial_event_type confirmed = bet_confirmed
financial_event_type BetState.cash_out_requested = FinancialEvent.cash_out_requested
financial_event_type BetState.cashed_out = FinancialEvent.cash_out_confirmed
financial_event_type lost = bet_lost
financial_event_type BetState.failed = FinancialEvent.bet_failed
financial_event_type BetState.unknown = bet_unknown
financial_event_type reconciled = event_reconciled
financial_event_type _ = bet_unknown

unfoldable pub system_event_for_state : BetState → Option SystemEvent
system_event_for_state placed = some SystemEvent.bet_placed
system_event_for_state BetState.failed = some SystemEvent.bet_failed
system_event_for_state BetState.cash_out_requested = some SystemEvent.cash_out_requested
system_event_for_state BetState.cashed_out = some SystemEvent.cash_out_confirmed
system_event_for_state lost = some cash_out_failed
system_event_for_state BetState.unknown = some cash_out_failed
system_event_for_state _ = none

pub data Statement : Type 0 where
  begin commit rollback : Statement
  insert_bet : CreateBetInput → BetState → Statement
  insert_event : String → FinancialEvent → Option ℤ → Option ℕ → Statement
  enqueue_outbox_event : String → SystemEvent → Statement
  select_for_update : String → Statement
  update_bet : String → UpdateBetInput → Statement

-- A connection: what a statement answers and does, and what others read by an identifier.
pub record Connection (D : Type 0) : Type 0 where
  pub query : Statement → D → Outcome (List BetRecord) × D
  pub stored : D → String → Option BetRecord

unfoldable pub has_fields : UpdateBetInput → Bool
has_fields i =
    is_some i.session_id
    || (is_some i.round_id
        || (is_some i.state
            || (is_some i.requested_at
                || (is_some i.placed_at
                    || (is_some i.confirmed_at
                        || (is_some i.cash_out_requested_at
                            || (is_some i.cash_out_confirmed_at
                                || (is_some i.observed_cash_out_multiplier
                                    || (is_some i.confirmed_cash_out_multiplier
                                        || (is_some i.pnl
                                            || (is_some i.balance_before
                                                || (is_some i.balance_after
                                                    || is_some i.failure_reason))))))))))))

abbrev pub initial_state : Option BetState → BetState
initial_state none = BetState.pending
initial_state (some s) = s

module _ {D : Type 0} (db : Connection D) where
  -- A statement whose error the code swallows.
  abbrev pub attempt : Statement → D → D
  attempt q d = (db.query q d).1

  abbrev pub rolled_back : {A : Type 0} → String → D → Outcome A × D
  rolled_back m d = (threw m, attempt rollback d)

  -- A statement whose error ends the transaction.
  abbrev pub and_then :
      {A : Type 0}
      → Outcome (List BetRecord) × D
      → (List BetRecord → D → Outcome A × D)
      → Outcome A × D
  and_then (threw m, d) k = rolled_back m d
  and_then (returned rows, d) k = k rows d

  abbrev pub committed : {A : Type 0} → A → D → Outcome A × D
  committed a d = and_then (db.query commit d) (λ _ d'. (returned a, d'))

  -- The part of `create` behind the INSERT, whose first row is the record.
  unfoldable pub created : List BetRecord → D → Outcome BetRecord × D
  created [] d = rolled_back "no row" d
  created (b ∷ rows) d = committed b (
      attempt (enqueue_outbox_event b.id entry_approved)
        (attempt (insert_event b.id bet_intended (some (pos b.stake)) none) d))

  unfoldable pub create : CreateBetInput → D → Outcome BetRecord × D
  create input d =
      and_then (db.query begin d)
        (λ _ d1. and_then (db.query (insert_bet input (initial_state input.state)) d1) created)

  unfoldable pub announce : String → Option SystemEvent → D → D
  announce id none d = d
  announce id (some e) d = attempt (enqueue_outbox_event id e) d

  -- The events of a change of state.
  unfoldable pub record_events : String → Option BetState → BetRecord → BetRecord → D → D
  unfolding announce
  record_events id none old new d = d
  record_events id (some s) old new d =
      if is_state s old.state
      then d
      else announce id (system_event_for_state s) (
          attempt
            (insert_event id (financial_event_type s) new.pnl new.confirmed_cash_out_multiplier) d)

  unfoldable pub written :
      String → UpdateBetInput → BetRecord → List BetRecord → D → Outcome (Option BetRecord) × D
  unfolding record_events
  written id input old [] d = and_then (db.query rollback d) (λ _ d'. (returned none, d'))
  written id input old (new ∷ rows) d =
      committed (some new) (record_events id input.state old new d)

  unfoldable pub locked :
      String → UpdateBetInput → List BetRecord → D → Outcome (Option BetRecord) × D
  unfolding written
  locked id input [] d = and_then (db.query rollback d) (λ _ d'. (returned none, d'))
  locked id input (old ∷ rows) d =
      and_then (db.query (update_bet id input) d) (written id input old)

  unfoldable pub update : String → UpdateBetInput → D → Outcome (Option BetRecord) × D
  unfolding locked
  update id input d =
      if has_fields input
      then and_then (db.query begin d)
          (λ _ d1. and_then (db.query (select_for_update id) d1) (locked id input))
      else (returned (db.stored d id), d)
