-- ===== src/Settlement/Engine.antt =====
-- src/settlement/authoritative-settlement-engine.ts. A method takes the tables and returns its
-- result with the tables after it. A transaction runs alone (SERIALIZABLE), and one that throws is
-- rolled back, so that the tables are as before; the
-- `withRetry` around it runs it again and is left out.
use Prim.Native.Nat.{ℕ, suc, ◌+◌, ◌-◌}
use crash_wave.Prelude.{
  Bool, true, false, ◌&&◌, Option, none, some, String, List, [], ◌∷◌, ltb, leb, ◌==◌, if◌then◌else◌,
  find, truthy, abs_diff,
}
use text.Mathlib.Text.{◌==◌ as str_eq}
use crash_wave.Settlement.Types.{
  OrderStatus, order_intent, dispatched, pending_settlement, reconciling, settled_win, settled_loss,
  void, Verdict, win, loss, cancelled, Account, hot_wallet, unsettled, realized_pnl,
  SettlementPayload, CreateOrderIntent, Order, LedgerEntry, Db, invalid_payload, order_not_found,
  ledger_imbalance, Result, ok, err, is_final,
}

-- `SELECT … WHERE client_order_id = $1`, the first row.
unfoldable pub find_order : String → List Order → Option Order
find_order c = find (λ o. str_eq o.client_order_id c)

-- `insertEntry`: an entry with no amount is skipped.
unfoldable pub insert_entry : ℕ → Account → ℕ → ℕ → String → List LedgerEntry → List LedgerEntry
insert_entry id a d c memo es =
    if d == 0 && c == 0
    then es
    else record { order_id = id; account = a; debit = d; credit = c; memo = memo } ∷ es

-- The sums of `assertBalanced` over the entries of one order.
pub data Side : Type 0 where
  debits credits : Side

abbrev pub amount : Side → LedgerEntry → ℕ
amount debits e = e.debit
amount credits e = e.credit

unfoldable pub order_total : Side → ℕ → List LedgerEntry → ℕ
order_total s id [] = 0
order_total s id (e ∷ es) = (if e.order_id == id then amount s e else 0) + order_total s id es

-- `Math.abs(d - c) > 1e-8`, one unit.
unfoldable pub is_balanced : ℕ → List LedgerEntry → Bool
unfolding order_total
is_balanced id es = leb (abs_diff (order_total debits id es) (order_total credits id es)) 1

unfoldable pub new_order : ℕ → CreateOrderIntent → Order
new_order id i = record {
  id = id;
  client_order_id = i.client_order_id;
  tenant_id = i.tenant_id;
  bet_id = i.bet_id;
  game_id = i.game_id;
  round_id = i.round_id;
  wager_amount = i.wager_amount;
  target_multiplier = i.target_multiplier;
  status = order_intent;
  gross_payout = none;
  exit_multiplier = none;
  settled_at = none;
  external_reference = none;
}

-- The balanced pair of an intent.
unfoldable pub intent_entries : ℕ → ℕ → List LedgerEntry → List LedgerEntry
unfolding insert_entry
intent_entries id wager es =
    insert_entry id hot_wallet 0 wager "wager lock"
      (insert_entry id unsettled wager 0 "exposure open" es)

-- The transaction behind the insert: the check, then COMMIT or ROLLBACK.
abbrev pub commit : {A : Type 0} → A → ℕ → Db → Db → Result A × Db
commit a id db new = if is_balanced id new.entries then (ok a, new) else (err ledger_imbalance, db)

abbrev pub with_intent : CreateOrderIntent → Db → Db
with_intent i db = record {
  orders = new_order db.next_id i ∷ db.orders;
  entries = intent_entries db.next_id i.wager_amount db.entries;
  next_id = suc db.next_id;
}

unfoldable pub insert_intent : CreateOrderIntent → Db → Result ℕ × Db
insert_intent i db = commit db.next_id db.next_id db (with_intent i db)

unfoldable pub create_missing : CreateOrderIntent → Db → Option Order → Result ℕ × Db
unfolding insert_intent
create_missing i db none = insert_intent i db
create_missing i db (some o) = (ok o.id, db)

-- `createOrderIntentOnce`: an order that exists is returned, and nothing is written.
unfoldable pub create_order_intent_once : CreateOrderIntent → Db → Result ℕ × Db
unfolding find_order create_missing new_order intent_entries is_balanced
create_order_intent_once i db = create_missing i db (find_order i.client_order_id db.orders)

-- `UPDATE settlement_orders … WHERE …`
unfoldable pub update_orders : (Order → Bool) → (Order → Order) → List Order → List Order
update_orders p f [] = []
update_orders p f (o ∷ os) = (if p o then f o else o) ∷ update_orders p f os

abbrev pub can_dispatch : OrderStatus → Bool
can_dispatch order_intent = true
can_dispatch _ = false

abbrev pub can_reconcile : OrderStatus → Bool
can_reconcile dispatched = true
can_reconcile pending_settlement = true
can_reconcile order_intent = true
can_reconcile _ = false

unfoldable pub mark_dispatched : String → Db → Db
unfolding update_orders
mark_dispatched c db = record db {
  orders =
      update_orders (λ o. str_eq o.client_order_id c && can_dispatch o.status)
        (λ o. record o { status = dispatched }) db.orders;
}

unfoldable pub mark_reconciling : String → Db → Db
unfolding update_orders
mark_reconciling c db = record db {
  orders =
      update_orders (λ o. str_eq o.client_order_id c && can_reconcile o.status)
        (λ o. record o { status = reconciling }) db.orders;
}

-- The payout of a win.
unfoldable pub payout_entry : ℕ → ℕ → List LedgerEntry → List LedgerEntry
unfolding insert_entry
payout_entry id gross es =
    if ltb 0 gross then insert_entry id hot_wallet gross 0 "payout" es else es

-- The result of a win: `netPnl` is `gross - wager`, split by its sign.
unfoldable pub pnl_entry : ℕ → ℕ → ℕ → List LedgerEntry → List LedgerEntry
unfolding insert_entry
pnl_entry id wager gross es =
    if ltb wager gross
    then insert_entry id realized_pnl 0 (gross - wager) "pnl profit" es
    else if ltb gross wager
    then insert_entry id realized_pnl (wager - gross) 0 "pnl residual" es
    else es

-- The entries of a settlement, by its verdict.
unfoldable pub settle_entries : ℕ → ℕ → Verdict → ℕ → List LedgerEntry → List LedgerEntry
unfolding insert_entry payout_entry pnl_entry
settle_entries id wager cancelled gross es =
    insert_entry id unsettled 0 wager "exposure close void"
      (insert_entry id hot_wallet wager 0 "void refund" es)
settle_entries id wager loss gross es =
    insert_entry id unsettled 0 wager "exposure close"
      (insert_entry id realized_pnl wager 0 "pnl loss" es)
settle_entries id wager win gross es =
    pnl_entry id wager gross
      (insert_entry id unsettled 0 wager "exposure close" (payout_entry id gross es))

abbrev pub final_status : Verdict → OrderStatus
final_status win = settled_win
final_status loss = settled_loss
final_status cancelled = void

abbrev pub coalesce : Option String → Option String → Option String
coalesce (some a) b = some a
coalesce none b = b

-- The final UPDATE of an order.
unfoldable pub settled_order : SettlementPayload → Order → Order
settled_order p o = record o {
  status = final_status p.verdict;
  gross_payout = some p.gross_payout;
  exit_multiplier = some p.multiplier;
  settled_at = some p.settled_at;
  external_reference = coalesce p.external_reference o.external_reference;
}

-- 1.0 in units of a multiplier.
abbrev pub one : ℕ
one = 100000000

-- `SettlementPayloadSchema.parse`; a payout is a number that cannot be negative.
unfoldable pub parses : SettlementPayload → Bool
parses p = truthy p.client_order_id && leb one p.multiplier

pub data Settled : Type 0 where
  settled already_final : Settled

abbrev pub with_settlement : SettlementPayload → Order → Db → Db
with_settlement p o db = record db {
  orders = update_orders (λ o'. o'.id == o.id) (settled_order p) db.orders;
  entries = settle_entries o.id o.wager_amount p.verdict p.gross_payout db.entries;
}

unfoldable pub settle_found : SettlementPayload → Order → Db → Result Settled × Db
settle_found p o db = commit settled o.id db (with_settlement p o db)

unfoldable pub settle_existing : SettlementPayload → Db → Option Order → Result Settled × Db
unfolding settle_found
settle_existing p db none = (err order_not_found, db)
settle_existing p db (some o) =
    if is_final o.status then (ok already_final, db) else settle_found p o db

-- `settleOrderOnce`
unfoldable pub settle_order_once : SettlementPayload → Db → Result Settled × Db
unfolding parses find_order settle_existing settle_entries update_orders settled_order is_balanced
settle_order_once p db =
    if parses p
    then settle_existing p db (find_order p.client_order_id db.orders)
    else (err invalid_payload, db)
