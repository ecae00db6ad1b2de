-- ===== src/Settlement/WellFormed.antt =====
-- The invariant of the two tables of authoritative-settlement-engine.ts.
use crash_wave.Prelude.{
  suc, ◌+◌, ◌≡◌, refl, sym, ◌∙◌, Bool, true, false, Option, none, some, String, ◌==◌, arith,
  Bool-cases, inl, inr, and_parts,
}
use text.Mathlib.Text.{◌==◌ as str_eq}
use crash_wave.Settlement.Types.{
  OrderStatus, Account, SettlementPayload, CreateOrderIntent, Order, Db, is_final,
}
use crash_wave.Settlement.Engine.{
  Side, find_order, update_orders, new_order, settled_order, with_intent, with_settlement,
  create_missing, create_order_intent_once, can_dispatch, can_reconcile, mark_dispatched,
  mark_reconciling, parses, settle_existing, settle_order_once,
}
use crash_wave.Settlement.Balance.{
  Balanced, insert_intent_lem, settle_found_lem, with_intent-Balanced, with_settlement-Balanced,
}
use crash_wave.Settlement.Orders.{
  DistinctIds, IdsBelow, IdsBelow-suc, IdsBelow-Absent, DistinctIds-update, IdsBelow-update, sum_of,
  sum_of-update_same, sum_of-update_found,
}
use crash_wave.Settlement.Journal.{
  account_total, due, due-unsettled, account_total-intent_entries, account_total-settle_entries,
}

-- Every account's journal sums to what the orders owe it.
abbrev pub Accounted : Db → Type 0
Accounted db = (s : Side) (a : Account) → account_total s a db.entries ≡ sum_of (due s a) db.orders

pub record WellFormed (db : Db) : Type 0 where
  pub distinct : DistinctIds db.orders
  pub below : IdsBelow db.next_id db.orders
  pub balanced : Balanced db
  pub accounted : Accounted db

with_intent-WellFormed :
    (i : CreateOrderIntent) (db : Db)
    → WellFormed db
    → Balanced (with_intent i db)
    → WellFormed (with_intent i db)
unfolding sum_of new_order
with_intent-WellFormed i db w even = record {
  distinct = (IdsBelow-Absent db.next_id db.orders w.below, w.distinct);
  below = (omega arith, IdsBelow-suc db.next_id (suc db.next_id) db.orders (omega arith) w.below);
  balanced = even;
  accounted = λ s a.
      omega (arith, account_total-intent_entries s a db.next_id i db.entries, w.accounted s a);
}

create_missing-WellFormed :
    (i : CreateOrderIntent) (db : Db) (fo : Option Order)
    → WellFormed db
    → WellFormed (create_missing i db fo).1
unfolding create_missing
create_missing-WellFormed i db (some o) w = w
create_missing-WellFormed i db none w =
    rw (insert_intent_lem i db w.balanced)
      (with_intent-WellFormed i db w (with_intent-Balanced i db w.balanced))

settled_order-id : (p : SettlementPayload) (o : Order) → (settled_order p o).id ≡ o.id
unfolding settled_order
settled_order-id p o = refl

-- An intent keeps the tables well formed: ids stay distinct, every order balanced, and every
-- account's journal sums to what the orders owe it by their statuses.
pub create_order_intent_once-WellFormed :
    (i : CreateOrderIntent) (db : Db) → WellFormed db → WellFormed (create_order_intent_once i db).1
unfolding create_order_intent_once
create_order_intent_once-WellFormed i db w =
    create_missing-WellFormed i db (find_order i.client_order_id db.orders) w

with_settlement-WellFormed :
    (p : SettlementPayload) (o : Order) (db : Db)
    → find_order p.client_order_id db.orders ≡ some o
    → is_final o.status ≡ false
    → WellFormed db
    → WellFormed (with_settlement p o db)
with_settlement-WellFormed p o db found live w = record {
  distinct = DistinctIds-update _ _ (settled_order-id p) db.orders w.distinct;
  below = IdsBelow-update _ _ (settled_order-id p) db.next_id db.orders w.below;
  balanced = with_settlement-Balanced p o db w.balanced;
  accounted = λ s a.
      omega (
        arith,
        account_total-settle_entries s a p o db.entries live,
        exchange s a,
        w.accounted s a,
      );
}
  where
    exchange :
        (s : Side) (a : Account)
        → sum_of (due s a) (update_orders (λ o'. o'.id == o.id) (settled_order p) db.orders)
            + due s a o
          ≡ sum_of (due s a) db.orders + due s a (settled_order p o)
    exchange s a =
        sum_of-update_found (due s a) (settled_order p)
          (λ o'. str_eq o'.client_order_id p.client_order_id) db.orders o w.distinct
          (unfold find_order in found)

-- A settlement, refused or not, keeps the tables well formed.
pub settle_order_once-WellFormed :
    (p : SettlementPayload) (db : Db) → WellFormed db → WellFormed (settle_order_once p db).1
unfolding settle_order_once
settle_order_once-WellFormed p db w = elim (Bool-cases (parses p)) [
  | inr bad ↦ rw bad w
  | inl good ↦ rw good (existing (find_order p.client_order_id db.orders) refl)
]
  where
    existing :
        (fo : Option Order)
        → find_order p.client_order_id db.orders ≡ fo
        → WellFormed (settle_existing p db fo).1
    existing none e = w
    existing (some o) e = elim (Bool-cases (is_final o.status)) [
      | inl final ↦ rw final w
      | inr live ↦
          rw (live, settle_found_lem p o db w.balanced) (with_settlement-WellFormed p o db e live w)
    ]

-- An update of orders that are open before and after it, and keep their wagers.
module _ (p : Order → Bool) (f : Order → Order) (same_id : (o : Order) → (f o).id ≡ o.id)
    (same_wager : (o : Order) → (f o).wager_amount ≡ o.wager_amount)
    (stays_open : (o : Order)
      → p o ≡ true
      → (is_final o.status ≡ false) × (is_final (f o).status ≡ false)) where
  open_update-WellFormed :
      (db : Db) → WellFormed db → WellFormed (record db { orders = update_orders p f db.orders })
  open_update-WellFormed db w = record {
    distinct = DistinctIds-update p f same_id db.orders w.distinct;
    below = IdsBelow-update p f same_id db.next_id db.orders w.below;
    balanced = w.balanced;
    accounted = λ s a.
        w.accounted s a
        ∙ sym (sum_of-update_same (due s a) p f db.orders (λ o hit. same_due s a o hit));
  }
    where
      same_due : (s : Side) (a : Account) (o : Order) → p o ≡ true → due s a (f o) ≡ due s a o
      same_due s a o hit =
          let (before, after) = stays_open o hit in
          rw (due-unsettled s a o before, due-unsettled s a (f o) after, same_wager o)

can_dispatch-open : (s : OrderStatus) → can_dispatch s ≡ true → is_final s ≡ false
can_dispatch-open s h = ground arith

can_reconcile-open : (s : OrderStatus) → can_reconcile s ≡ true → is_final s ≡ false
can_reconcile-open s h = ground arith

-- Marking an order as dispatched keeps the tables well formed.
pub mark_dispatched-WellFormed :
    (c : String) (db : Db) → WellFormed db → WellFormed (mark_dispatched c db)
unfolding mark_dispatched
mark_dispatched-WellFormed c db w =
    open_update-WellFormed _ _ (λ o. refl) (λ o. refl)
      (λ o hit. (can_dispatch-open o.status (and_parts (str_eq o.client_order_id c) _ hit).1, refl))
      db w

-- So does marking it as reconciling.
pub mark_reconciling-WellFormed :
    (c : String) (db : Db) → WellFormed db → WellFormed (mark_reconciling c db)
unfolding mark_reconciling
mark_reconciling-WellFormed c db w =
    open_update-WellFormed _ _ (λ o. refl) (λ o. refl)
      (λ o hit.
        (can_reconcile-open o.status (and_parts (str_eq o.client_order_id c) _ hit).1, refl))
      db w
