-- ===== src/Settlement/Tests.antt =====
-- Runs of the engine, and each theorem at an input of its own.
use crash_wave.Prelude.{ℕ, ◌+◌, ◌≡◌, refl, none, some, List, [], ◌∷◌, length}
use crash_wave.Settlement.Types.{
  settled_loss, Verdict, win, loss, cancelled, SettlementPayload, CreateOrderIntent, Order, Db, ok,
  unsettled, hot_wallet, realized_pnl,
}
use crash_wave.Settlement.Engine.{
  settle_order_once, create_order_intent_once, find_order, already_final, debits, credits,
}
use crash_wave.Settlement.Balance.{
  Balanced, NoImbalance, create_order_intent_once-Balanced, settle_order_once-Balanced,
}
use crash_wave.Settlement.Orders.{sum_of}
use crash_wave.Settlement.Journal.{account_total}
use crash_wave.Settlement.WellFormed.{WellFormed, settle_order_once-WellFormed}
use crash_wave.Settlement.Books.{
  EngineCall, create, dispatch, settle, run_calls, empty_db, open_wager, run_calls-WellFormed,
  run_calls-exposure, run_calls-conserves,
}
use crash_wave.Settlement.Final.{settle_order_once-settled}
use crash_wave.Settlement.Kept.{entries_of}
use crash_wave.Settlement.Lasting.{run_calls-final}

abbrev intent : CreateOrderIntent
intent = record {
  client_order_id = "c1";
  tenant_id = none;
  bet_id = some "b1";
  game_id = none;
  round_id = some "r1";
  wager_amount = 700;
  target_multiplier = 130000000;
}

abbrev payload : Verdict → ℕ → SettlementPayload
payload v gross = record {
  client_order_id = "c1";
  verdict = v;
  gross_payout = gross;
  multiplier = 130000000;
  settled_at = 5;
  external_reference = none;
}

abbrev calls : List EngineCall
calls = create intent ∷ dispatch "c1" ∷ []

abbrev placed : Db
placed = run_calls calls empty_db

-- A win of 910 on a wager of 700 makes five entries in all.
win_entries : length (settle_order_once (payload win 910) placed).1.entries ≡ 5
unfolding run_calls settle_order_once
win_entries = refl

balanced_example :
    Balanced (settle_order_once (payload win 500) placed).1
    × NoImbalance (settle_order_once (payload win 500) placed).0
balanced_example =
    settle_order_once-Balanced (payload win 500) placed (run_calls-WellFormed calls).balanced

create-Balanced_example :
    Balanced (create_order_intent_once intent empty_db).1
    × NoImbalance (create_order_intent_once intent empty_db).0
unfolding run_calls
create-Balanced_example =
    create_order_intent_once-Balanced intent empty_db (run_calls-WellFormed []).balanced

run_calls-WellFormed_example :
    WellFormed (run_calls (create intent ∷ settle (payload loss 0) ∷ []) empty_db)
run_calls-WellFormed_example = run_calls-WellFormed (create intent ∷ settle (payload loss 0) ∷ [])

settle-WellFormed_example : WellFormed (settle_order_once (payload cancelled 0) placed).1
settle-WellFormed_example =
    settle_order_once-WellFormed (payload cancelled 0) placed (run_calls-WellFormed calls)

exposure_example :
    account_total debits unsettled placed.entries
    ≡ account_total credits unsettled placed.entries + sum_of open_wager placed.orders
exposure_example = run_calls-exposure calls

conserves_example :
    account_total credits hot_wallet placed.entries
      + account_total credits realized_pnl placed.entries
    ≡ account_total debits hot_wallet placed.entries
      + account_total debits realized_pnl placed.entries
      + sum_of open_wager placed.orders
conserves_example = run_calls-conserves calls

idempotent_example :
    settle_order_once (payload win 910) (settle_order_once (payload loss 0) placed).1
    ≡ (ok already_final, (settle_order_once (payload loss 0) placed).1)
unfolding run_calls settle_order_once
idempotent_example =
    settle_order_once-settled (payload loss 0) (payload win 910) placed (run_calls-WellFormed calls)
      refl refl refl

abbrev lost : Db
lost = run_calls (settle (payload loss 0) ∷ []) placed

-- The order of `lost`.
abbrev lost_order : Order
lost_order = record {
  id = 0;
  client_order_id = "c1";
  tenant_id = none;
  bet_id = some "b1";
  game_id = none;
  round_id = some "r1";
  wager_amount = 700;
  target_multiplier = 130000000;
  status = settled_loss;
  gross_payout = some 0;
  exit_multiplier = some 130000000;
  settled_at = some 5;
  external_reference = none;
}

abbrev all_calls : List EngineCall
all_calls = create intent ∷ dispatch "c1" ∷ settle (payload loss 0) ∷ []

final_example :
    let closed = run_calls all_calls empty_db in
    let later = run_calls (settle (payload win 910) ∷ create intent ∷ []) closed in
    (find_order "c1" later.orders ≡ some lost_order)
    × (entries_of 0 later.entries ≡ entries_of 0 closed.entries)
unfolding run_calls find_order
final_example =
    run_calls-final (settle (payload win 910) ∷ create intent ∷ []) "c1" lost_order
      (run_calls all_calls empty_db) (run_calls-WellFormed all_calls) refl refl
