-- ===== src/Settlement/Lasting.antt =====
-- A final order of authoritative-settlement-engine.ts under later calls.
use crash_wave.Prelude.{
  ◌≡◌, refl, ap, Bool, true, false, ◌&&◌, Option, none, some, String, List, [], ◌∷◌, ◌==◌, ==_iff,
  arith, Bool-cases, inl, inr, ◌∙◌,
}
use text.Mathlib.Text.{◌==◌ as str_eq}
use text.Mathlib.TextEquality.{eq_iff}
use crash_wave.Settlement.Types.{
  dispatched, reconciling, SettlementPayload, CreateOrderIntent, Order, LedgerEntry, Db, is_final,
}
use crash_wave.Settlement.Engine.{
  find_order, new_order, settled_order, parses, settle_existing, settle_order_once, create_missing,
  create_order_intent_once, mark_dispatched, mark_reconciling, can_dispatch, can_reconcile,
}
use crash_wave.Settlement.Balance.{insert_intent_lem, settle_found_lem}
use crash_wave.Settlement.Orders.{find-Absent, IdsBelow-Absent}
use crash_wave.Settlement.Kept.{entries_of, intent_entries-other, settle_entries-other}
use crash_wave.Settlement.WellFormed.{WellFormed}
use crash_wave.Settlement.Final.{find-update_untouched, find_unique}
use crash_wave.Settlement.Books.{
  EngineCall, create, dispatch, reconcile, settle, apply, apply-WellFormed, run_calls,
}

module _ (c : String) (o : Order) (js : List LedgerEntry) (final : is_final o.status ≡ true) where
  -- The tables hold the order under the id `c`, with its entries `js`.
  abbrev Holds : Db → Type 0
  Holds db = (find_order c db.orders ≡ some o) × (entries_of o.id db.entries ≡ js)

  and_false : (a b : Bool) → b ≡ false → (a && b) ≡ false
  and_false a b h = ground arith

  dispatch_misses : can_dispatch o.status ≡ false
  dispatch_misses = ground arith

  reconcile_misses : can_reconcile o.status ≡ false
  reconcile_misses = ground arith

  mark_dispatched-Holds : (d : String) (db : Db) → Holds db → Holds (mark_dispatched d db)
  unfolding mark_dispatched find_order
  mark_dispatched-Holds d db (h, j) = (
    find-update_untouched (λ x. str_eq x.client_order_id c)
        (λ x. str_eq x.client_order_id d && can_dispatch x.status)
        (λ x. record x { status = dispatched }) db.orders o (λ x. refl) h
        (and_false (str_eq o.client_order_id d) (can_dispatch o.status) dispatch_misses),
    j,
  )

  mark_reconciling-Holds : (d : String) (db : Db) → Holds db → Holds (mark_reconciling d db)
  unfolding mark_reconciling find_order
  mark_reconciling-Holds d db (h, j) = (
    find-update_untouched (λ x. str_eq x.client_order_id c)
        (λ x. str_eq x.client_order_id d && can_reconcile x.status)
        (λ x. record x { status = reconciling }) db.orders o (λ x. refl) h
        (and_false (str_eq o.client_order_id d) (can_reconcile o.status) reconcile_misses),
    j,
  )

  none_held :
      (d : String) (db : Db)
      → d ≡ c
      → find_order d db.orders ≡ none
      → find_order c db.orders ≡ some o
      → ⊥
  none_held d db same e h = let e' : find_order c db.orders ≡ none = rw same at e in cc

  open_is_other :
      (p : SettlementPayload) (db : Db) (x : Order)
      → find_order p.client_order_id db.orders ≡ some x
      → is_final x.status ≡ false
      → WellFormed db
      → find_order c db.orders ≡ some o
      → (o.id == x.id) ≡ false
  unfolding find_order
  open_is_other p db x e live w h = elim (Bool-cases (o.id == x.id)) [
    | inr other ↦ other
    | inl same ↦
        let one =
          find_unique (λ y. str_eq y.client_order_id c)
            (λ y. str_eq y.client_order_id p.client_order_id) db.orders o x w.distinct h e
            ((==_iff o.id x.id).0 same) in
        let both : is_final o.status ≡ is_final x.status = ap (λ y. is_final y.status) one in cc
  ]

  new_id :
      (db : Db) → WellFormed db → find_order c db.orders ≡ some o → (o.id == db.next_id) ≡ false
  unfolding find_order
  new_id db w h =
      let other =
        find-Absent (λ x. str_eq x.client_order_id c) db.next_id db.orders o
          (IdsBelow-Absent db.next_id db.orders w.below) h in
      elim (Bool-cases (o.id == db.next_id)) [
        | inr miss ↦ miss
        | inl same ↦ absurd (other ((==_iff o.id db.next_id).0 same))
      ]

  -- A new order has another client order id, since none was found under its own.
  create_missing-Holds :
      (i : CreateOrderIntent) (db : Db) (fo : Option Order)
      → find_order i.client_order_id db.orders ≡ fo
      → WellFormed db
      → Holds db
      → Holds (create_missing i db fo).1
  unfolding create_missing find_order new_order
  create_missing-Holds i db (some x) e w h = h
  create_missing-Holds i db none e w (h, j) = elim (Bool-cases (str_eq i.client_order_id c)) [
    | inr other ↦ rw (insert_intent_lem i db w.balanced) (
      rw other h,
      intent_entries-other o.id db.next_id i.wager_amount db.entries (new_id db w h) ∙ j,
    )
    | inl same ↦ absurd (none_held i.client_order_id db ((eq_iff i.client_order_id c).0 same) e h)
  ]

  -- The order that a settlement writes was open, so it is another one.
  settle_existing-Holds :
      (p : SettlementPayload) (db : Db) (fo : Option Order)
      → find_order p.client_order_id db.orders ≡ fo
      → WellFormed db
      → Holds db
      → Holds (settle_existing p db fo).1
  unfolding settle_existing find_order settled_order
  settle_existing-Holds p db none e w h = h
  settle_existing-Holds p db (some x) e w (h, j) = elim (Bool-cases (is_final x.status)) [
    | inl done ↦ rw done (h, j)
    | inr live ↦
        rw (live, settle_found_lem p x db w.balanced)
          (
            find-update_untouched (λ y. str_eq y.client_order_id c) (λ y. y.id == x.id)
                (settled_order p) db.orders o (λ y. refl) h (open_is_other p db x e live w h),
            settle_entries-other o.id x.id x.wager_amount p.verdict p.gross_payout db.entries
                  (open_is_other p db x e live w h)
                ∙ j,
          )
  ]

  settle_order_once-Holds :
      (p : SettlementPayload) (db : Db)
      → WellFormed db
      → Holds db
      → Holds (settle_order_once p db).1
  unfolding settle_order_once
  settle_order_once-Holds p db w h = elim (Bool-cases (parses p)) [
    | inr bad ↦ rw bad h
    | inl good ↦
        rw good (settle_existing-Holds p db (find_order p.client_order_id db.orders) refl w h)
  ]

  apply-Holds : (call : EngineCall) (db : Db) → WellFormed db → Holds db → Holds (apply call db)
  unfolding apply create_order_intent_once
  apply-Holds (create i) db w h =
      create_missing-Holds i db (find_order i.client_order_id db.orders) refl w h
  apply-Holds (dispatch d) db w h = mark_dispatched-Holds d db h
  apply-Holds (reconcile d) db w h = mark_reconciling-Holds d db h
  apply-Holds (settle p) db w h = settle_order_once-Holds p db w h

-- In well-formed tables, an order that a search finds and that is final is found unchanged after
-- any further sequence of calls, and the journal has the same entries for it as before: no call
-- reopens it, books it again or alters its payout.
pub run_calls-final :
    (cs : List EngineCall) (c : String) (o : Order) (db : Db)
    → WellFormed db
    → find_order c db.orders ≡ some o
    → is_final o.status ≡ true
    → (find_order c (run_calls cs db).orders ≡ some o)
      × (entries_of o.id (run_calls cs db).entries ≡ entries_of o.id db.entries)
unfolding run_calls
run_calls-final cs c o db w h final = go cs db w (h, refl)
  where
    go :
        (ds : List EngineCall) (d : Db)
        → WellFormed d
        → Holds c o (entries_of o.id db.entries) final d
        → Holds c o (entries_of o.id db.entries) final (run_calls ds d)
    go [] d v k = k
    go (call ∷ ds) d v k =
        go ds (apply call d) (apply-WellFormed call d v)
          (apply-Holds c o (entries_of o.id db.entries) final call d v k)
