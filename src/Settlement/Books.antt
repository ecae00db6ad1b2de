-- ===== src/Settlement/Books.antt =====
-- Any sequence of calls of the engine, and what the books say after it.
use crash_wave.Prelude.{ℕ, ◌+◌, ◌≡◌, refl, String, List, [], ◌∷◌, arith, if◌then◌else◌}
use crash_wave.Settlement.Types.{
  OrderStatus, settled_win, hot_wallet, unsettled, realized_pnl, SettlementPayload,
  CreateOrderIntent, Order, Db, is_final,
}
use crash_wave.Settlement.Engine.{
  debits, credits, order_total, create_order_intent_once, mark_dispatched, mark_reconciling,
  settle_order_once,
}
use crash_wave.Settlement.Orders.{sum_of}
use crash_wave.Settlement.Journal.{account_total, due}
use crash_wave.Settlement.WellFormed.{
  WellFormed, create_order_intent_once-WellFormed, mark_dispatched-WellFormed,
  mark_reconciling-WellFormed, settle_order_once-WellFormed,
}

pub data EngineCall : Type 0 where
  create : CreateOrderIntent → EngineCall
  dispatch reconcile : String → EngineCall
  settle : SettlementPayload → EngineCall

unfoldable pub apply : EngineCall → Db → Db
unfolding create_order_intent_once mark_dispatched mark_reconciling settle_order_once
apply (create i) db = (create_order_intent_once i db).1
apply (dispatch c) db = mark_dispatched c db
apply (reconcile c) db = mark_reconciling c db
apply (settle p) db = (settle_order_once p db).1

unfoldable pub run_calls : List EngineCall → Db → Db
unfolding apply
run_calls [] db = db
run_calls (c ∷ cs) db = run_calls cs (apply c db)

abbrev pub empty_db : Db
empty_db = record { orders = []; entries = []; next_id = 0 }

pub apply-WellFormed : (c : EngineCall) (db : Db) → WellFormed db → WellFormed (apply c db)
unfolding apply
apply-WellFormed (create i) db w = create_order_intent_once-WellFormed i db w
apply-WellFormed (dispatch c) db w = mark_dispatched-WellFormed c db w
apply-WellFormed (reconcile c) db w = mark_reconciling-WellFormed c db w
apply-WellFormed (settle p) db w = settle_order_once-WellFormed p db w

run_from-WellFormed :
    (cs : List EngineCall) (db : Db) → WellFormed db → WellFormed (run_calls cs db)
unfolding run_calls
run_from-WellFormed [] db w = w
run_from-WellFormed (c ∷ cs) db w = run_from-WellFormed cs (apply c db) (apply-WellFormed c db w)

empty_db-WellFormed : WellFormed empty_db
unfolding sum_of account_total order_total
empty_db-WellFormed = record {
  distinct = tt;
  below = tt;
  balanced = λ id. refl;
  accounted = λ s a. refl;
}

-- After any sequence of calls on empty tables the ids of the orders are distinct, each order's debits
-- equal its credits, and each account's journal sums to what the orders owe it by their statuses.
pub run_calls-WellFormed : (cs : List EngineCall) → WellFormed (run_calls cs empty_db)
run_calls-WellFormed cs = run_from-WellFormed cs empty_db empty_db-WellFormed

-- The wager of an order that is not final.
abbrev pub open_wager : Order → ℕ
open_wager o = if is_final o.status then 0 else o.wager_amount

exposure_split :
    (os : List Order)
    → sum_of (due debits unsettled) os ≡ sum_of (due credits unsettled) os + sum_of open_wager os
unfolding sum_of
exposure_split [] = refl
exposure_split (o ∷ os) = ground (arith, exposure_split os)

-- After any sequence of calls on empty tables the balance of UNSETTLED_EXPOSURE is the sum of the
-- wagers of the orders that are not final.
pub run_calls-exposure :
    (cs : List EngineCall)
    → let db = run_calls cs empty_db in
      account_total debits unsettled db.entries
      ≡ account_total credits unsettled db.entries + sum_of open_wager db.orders
run_calls-exposure cs =
    let db = run_calls cs empty_db in
    let w = run_calls-WellFormed cs in
    omega
      (arith, w.accounted debits unsettled, w.accounted credits unsettled, exposure_split db.orders)

-- One order: what the hot wallet gives and the profit are what it gets, the loss and the open wager.
order_identity :
    (o : Order)
    → due credits hot_wallet o + due credits realized_pnl o
      ≡ due debits hot_wallet o + due debits realized_pnl o + open_wager o
order_identity o = by_status o.status
  where
    by_status :
        (s : OrderStatus)
        → due credits hot_wallet (record o { status = s })
            + due credits realized_pnl (record o { status = s })
          ≡ due debits hot_wallet (record o { status = s })
            + due debits realized_pnl (record o { status = s })
            + open_wager (record o { status = s })
    by_status settled_win = ground arith
    by_status _ = ground arith

orders_identity :
    (os : List Order)
    → sum_of (due credits hot_wallet) os + sum_of (due credits realized_pnl) os
      ≡ sum_of (due debits hot_wallet) os
        + sum_of (due debits realized_pnl) os
        + sum_of open_wager os
unfolding sum_of
orders_identity [] = refl
orders_identity (o ∷ os) = omega (arith, order_identity o, orders_identity os)

-- After any sequence of calls on empty tables the money is all there: the credits of the hot
-- wallet and of the realized profit are their debits and the wagers still open.
pub run_calls-conserves :
    (cs : List EngineCall)
    → let db = run_calls cs empty_db in
      account_total credits hot_wallet db.entries + account_total credits realized_pnl db.entries
      ≡ account_total debits hot_wallet db.entries
        + account_total debits realized_pnl db.entries
        + sum_of open_wager db.orders
run_calls-conserves cs =
    let db = run_calls cs empty_db in
    let w = run_calls-WellFormed cs in
    omega (
      arith,
      w.accounted credits hot_wallet,
      w.accounted credits realized_pnl,
      w.accounted debits hot_wallet,
      w.accounted debits realized_pnl,
      orders_identity db.orders,
    )
