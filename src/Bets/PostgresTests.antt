-- ===== src/Bets/PostgresTests.antt =====
-- A small database that keeps the rules of transactions, and each theorem on it.
use crash_wave.Prelude.{
  ℕ, ◌≡◌, refl, String, Option, none, some, Bool, true, false, List, [], ◌∷◌, if◌then◌else◌,
  get_key, set_key,
}
use crash_wave.Prelude.Int.{ℤ, negsuc}
use crash_wave.Betting.Types.{reserved, lost, Outcome, returned, threw}
use crash_wave.Bets.Types.{BetRecord, CreateBetInput, UpdateBetInput, is_state}
use crash_wave.Bets.Memory.{Table, new_bet, updated, no_change}
use crash_wave.Bets.Postgres.{
  Statement, FinancialEvent, begin, commit, rollback, insert_bet, insert_event,
  enqueue_outbox_event, select_for_update, update_bet, Connection, create, update,
}
use crash_wave.Bets.Transactions.{
  TransactionRules, NoEventTable, Lost, create-Lost, update-Lost, is_commit, is_end,
}

record Database : Type 0 where
  base : Table
  working : Table
  in_block : Bool
  aborted : Bool

abbrev failing : Database → Outcome (List BetRecord) × Database
failing d = (threw "relation does not exist", record d { aborted = true })

abbrev row : Option BetRecord → List BetRecord
row none = []
row (some b) = b ∷ []

abbrev changed : String → UpdateBetInput → Option BetRecord → Table → Table
changed id i none t = t
changed id i (some b) t = set_key id (updated i b) t

abbrev changed_row : UpdateBetInput → Option BetRecord → List BetRecord
changed_row i none = []
changed_row i (some b) = updated i b ∷ []

-- What a statement does in a block that is not aborted.
run : Statement → Database → Outcome (List BetRecord) × Database
run begin d = (returned [], record d { working = d.base; in_block = true })
run commit d = (returned [], record d { base = d.working; in_block = false })
run rollback d = (returned [], record d { in_block = false })
run (insert_bet i s) d =
    let b = new_bet "b1" i 5 in (returned (b ∷ []), record d { working = set_key "b1" b d.working })
run (insert_event id t a x) d = failing d
run (enqueue_outbox_event id e) d = failing d
run (select_for_update id) d = (returned (row (get_key id d.working)), d)
run (update_bet id i) d =
    let o = get_key id d.working in
    (returned (changed_row i o), record d { working = changed id i o d.working })

run_aborted : Statement → Database → Outcome (List BetRecord) × Database
run_aborted begin d = (threw "aborted", record d { in_block = true })
run_aborted commit d = (returned [], record d { in_block = false; aborted = false })
run_aborted rollback d = (returned [], record d { in_block = false; aborted = false })
run_aborted q d = (threw "aborted", d)

query : Statement → Database → Outcome (List BetRecord) × Database
query q d = if d.aborted then run_aborted q d else run q d

connection : Connection Database
unfolding query
connection = record { query = query; stored = λ d id. get_key id d.base }

isolated_by :
    (q : Statement) (d : Database) (a : Bool) (id : String)
    → is_commit q ≡ false
    → get_key id (if a then run_aborted q d else run q d).1.base ≡ get_key id d.base
unfolding run run_aborted
isolated_by commit d a id h = cc
isolated_by q d true id h = refl
isolated_by q d false id h = refl

stays_in_by :
    (q : Statement) (d : Database) (a : Bool)
    → is_end q ≡ false
    → d.in_block ≡ true
    → (if a then run_aborted q d else run q d).1.in_block ≡ true
unfolding run run_aborted
stays_in_by commit d a h b = cc
stays_in_by rollback d a h b = cc
stays_in_by begin d true h b = refl
stays_in_by begin d false h b = refl
stays_in_by q d true h b = b
stays_in_by q d false h b = b

begins_by :
    (d : Database) (a : Bool) → (if a then run_aborted begin d else run begin d).1.in_block ≡ true
unfolding run run_aborted
begins_by d true = refl
begins_by d false = refl

aborts_by :
    (q : Statement) (d : Database) (a : Bool) (m : String)
    → d.aborted ≡ a
    → (if a then run_aborted q d else run q d).0 ≡ threw m
    → (if a then run_aborted q d else run q d).1.aborted ≡ true
unfolding run run_aborted
aborts_by commit d true m e h = cc
aborts_by rollback d true m e h = cc
aborts_by q d true m e h = e
aborts_by (insert_event id t x y) d false m e h = refl
aborts_by (enqueue_outbox_event id t) d false m e h = refl
aborts_by _ d false m e h = cc

stays_aborted_by :
    (q : Statement) (d : Database) (a : Bool)
    → is_end q ≡ false
    → d.aborted ≡ true
    → d.aborted ≡ a
    → (if a then run_aborted q d else run q d).1.aborted ≡ true
unfolding run run_aborted
stays_aborted_by q d false h e f = cc
stays_aborted_by commit d true h e f = cc
stays_aborted_by rollback d true h e f = cc
stays_aborted_by _ d true h e f = e

missing_by :
    (id : String) (t : FinancialEvent) (x : Option ℤ) (y : Option ℕ) (d : Database) (a : Bool)
    → (m : String) × ((if a
          then run_aborted (insert_event id t x y) d
          else run (insert_event id t x y) d).0
        ≡ threw m)
unfolding run run_aborted
missing_by id t x y d true = ("aborted", refl)
missing_by id t x y d false = ("relation does not exist", refl)

commit_answers_by :
    (d : Database) (a : Bool) → (if a then run_aborted commit d else run commit d).0 ≡ returned []
unfolding run run_aborted
commit_answers_by d true = refl
commit_answers_by d false = refl

commit_rolls_back_by :
    (d : Database) (a : Bool) (id : String)
    → a ≡ true
    → get_key id (if a then run_aborted commit d else run commit d).1.base ≡ get_key id d.base
unfolding run run_aborted
commit_rolls_back_by d true id h = refl
commit_rolls_back_by d false id h = cc

rules : TransactionRules connection
unfolding connection query
rules = record {
  in_block = λ d. d.in_block;
  aborted = λ d. d.aborted;
  isolated = λ q d id h b. isolated_by q d d.aborted id h;
  begin_reads = λ d id. isolated_by begin d d.aborted id refl;
  begins = λ d rows h. begins_by d d.aborted;
  stays_in = λ q d h b. stays_in_by q d d.aborted h b;
  aborts = λ q d m e b h. aborts_by q d d.aborted m refl h;
  stays_aborted = λ q d h e. stays_aborted_by q d d.aborted h e refl;
  commit_answers = λ d h. commit_answers_by d d.aborted;
  commit_rolls_back = λ d id h. commit_rolls_back_by d d.aborted id h;
}

no_events : NoEventTable connection
unfolding connection query
no_events id t x y d = missing_by id t x y d d.aborted

abbrev input : CreateBetInput
input = record {
  session_id = none;
  round_id = some "r1";
  daily_key = "2026-01-05";
  stake = 700;
  cash_out_target = 130;
  state = some reserved;
  balance_before = none;
}

abbrev old_bet : BetRecord
old_bet = new_bet "b0" input 3

abbrev start : Database
start = record { base = ("b0", old_bet) ∷ []; working = []; in_block = false; aborted = false }

begins_well : (connection.query begin start).0 ≡ returned []
unfolding connection query run
begins_well = refl

inserts_well :
    (connection.query (insert_bet input reserved) (connection.query begin start).1).0
    ≡ returned (new_bet "b1" input 5 ∷ [])
unfolding connection query run
inserts_well = refl

create-Lost_example : Lost connection (new_bet "b1" input 5) start (create connection input start)
create-Lost_example =
    create-Lost connection rules no_events input start [] [] (new_bet "b1" input 5) begins_well
      inserts_well

abbrev losing : UpdateBetInput
losing = record no_change { state = some lost; pnl = some (some (negsuc 699)) }

locks_well :
    (connection.query (select_for_update "b0") (connection.query begin start).1).0
    ≡ returned (old_bet ∷ [])
unfolding connection query run get_key new_bet
locks_well = refl

updates_well :
    (connection.query
      (update_bet "b0" losing)
      (connection.query (select_for_update "b0") (connection.query begin start).1).1).0
    ≡ returned (updated losing old_bet ∷ [])
unfolding connection query run get_key new_bet updated
updates_well = refl

reserved_before : is_state lost old_bet.state ≡ false
unfolding is_state new_bet
reserved_before = refl

update-Lost_example :
    Lost connection (some (updated losing old_bet)) start (update connection "b0" losing start)
update-Lost_example =
    update-Lost connection rules no_events "b0" losing lost start [] [] [] old_bet
      (updated losing old_bet) refl reserved_before begins_well locks_well updates_well
