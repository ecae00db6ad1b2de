-- ===== src/Settlement/Final.antt =====
-- Settling an order of authoritative-settlement-engine.ts twice.
use crash_wave.Prelude.{
  ◌≡◌, refl, sym, ap, ◌∙◌, Bool, true, false, Option, none, some, List, [], ◌∷◌, ◌==◌, ==_iff, find,
  Bool-cases, inl, inr, if◌then◌else◌,
}
use text.Mathlib.Text.{◌==◌ as str_eq}
use crash_wave.Settlement.Types.{Verdict, win, SettlementPayload, Order, Db, ok, is_final}
use crash_wave.Settlement.Engine.{
  find_order, update_orders, settled_order, with_settlement, settled, already_final, parses,
  settle_existing, settle_order_once, final_status,
}
use crash_wave.Settlement.Orders.{DistinctIds, found_head, find-Absent}
use crash_wave.Settlement.Balance.{settle_found_lem}
use crash_wave.Settlement.WellFormed.{WellFormed}

-- A search whose test an update respects finds the updated order.
module _ (q p : Order → Bool) (f : Order → Order) (same : (x : Order) → q (f x) ≡ q x) where
  abbrev touch : Order → Order
  touch x = if p x then f x else x

  test-touch : (x : Order) → q (touch x) ≡ q x
  test-touch x = elim (Bool-cases (p x)) [ inl hit ↦ rw hit (same x) | inr miss ↦ rw miss refl ]

  find-update :
      (os : List Order) (o : Order)
      → find q os ≡ some o
      → find q (update_orders p f os) ≡ some (if p o then f o else o)
  unfolding update_orders
  find-update [] o e = cc
  find-update (x ∷ os) o e = elim (Bool-cases (q x)) [
    | inl hit ↦ rw (test-touch x, hit) (ap (λ y. some (touch y)) (found_head q x os o hit e))
    | inr miss ↦ rw (test-touch x, miss) (find-update os o (rw miss at e))
  ]

-- An update that leaves the found order alone.
pub find-update_untouched :
    (q p : Order → Bool) (f : Order → Order) (os : List Order) (o : Order)
    → ((x : Order) → q (f x) ≡ q x)
    → find q os ≡ some o
    → p o ≡ false
    → find q (update_orders p f os) ≡ some o
find-update_untouched q p f os o same e miss = find-update q p f same os o e ∙ rw miss refl

-- With distinct ids two searches that find one id find one order.
pub find_unique :
    (q r : Order → Bool) (os : List Order) (o o' : Order)
    → DistinctIds os
    → find q os ≡ some o
    → find r os ≡ some o'
    → o.id ≡ o'.id
    → o ≡ o'
find_unique q r [] o o' d e e' same = cc
find_unique q r (x ∷ os) o o' (d, ds) e e' same = elim (Bool-cases (q x)) [
  | inl hit ↦ elim (Bool-cases (r x)) [
    | inl hit' ↦ sym (found_head q x os o hit e) ∙ found_head r x os o' hit' e'
    | inr miss' ↦ absurd (
        find-Absent r x.id os o' d (rw miss' at e')
          (sym same ∙ ap (λ y. y.id) (sym (found_head q x os o hit e))))
  ]
  | inr miss ↦ elim (Bool-cases (r x)) [
    | inl hit' ↦ absurd (
        find-Absent q x.id os o d (rw miss at e)
          (same ∙ ap (λ y. y.id) (sym (found_head r x os o' hit' e'))))
    | inr miss' ↦ find_unique q r os o o' ds (rw miss at e) (rw miss' at e') same
  ]
]

final_status-is_final : (v : Verdict) → is_final (final_status v) ≡ true
final_status-is_final win = refl
final_status-is_final _ = refl

final_status-settled :
    (p : SettlementPayload) (o : Order) → is_final (settled_order p o).status ≡ true
unfolding settled_order
final_status-settled p o = final_status-is_final p.verdict

-- What a settlement leaves behind under its own client order id.
find-with_settlement :
    (p : SettlementPayload) (o : Order) (db : Db)
    → find_order p.client_order_id db.orders ≡ some o
    → find_order p.client_order_id (with_settlement p o db).orders ≡ some (settled_order p o)
unfolding find_order settled_order
find-with_settlement p o db e =
    find-update (λ x. str_eq x.client_order_id p.client_order_id) (λ x. x.id == o.id)
      (settled_order p) (λ x. refl) db.orders o e
    ∙ rw ((==_iff o.id o.id).1 refl) refl

final_blocks :
    (q : SettlementPayload) (db : Db) (o : Order)
    → parses q ≡ true
    → find_order q.client_order_id db.orders ≡ some o
    → is_final o.status ≡ true
    → settle_order_once q db ≡ (ok already_final, db)
unfolding settle_order_once
final_blocks q db o good found final = rw (good, found, settle_existing, final)

-- A settlement that reports success found an open order and wrote it.
settled-inversion :
    (p : SettlementPayload) (db : Db)
    → WellFormed db
    → (settle_order_once p db).0 ≡ ok settled
    → (o : Order) × (find_order p.client_order_id db.orders ≡ some o)
      × (settle_order_once p db ≡ (ok settled, with_settlement p o db))
unfolding settle_order_once
settled-inversion p db w h = elim (Bool-cases (parses p)) [
  | inr bad ↦ let no_result = rw bad at h in cc
  | inl good ↦ found good (find_order p.client_order_id db.orders) refl (rw good at h)
]
  where
    found :
        parses p ≡ true
        → (fo : Option Order) → find_order p.client_order_id db.orders ≡ fo
        → (settle_existing p db fo).0 ≡ ok settled
        → (o : Order) × (find_order p.client_order_id db.orders ≡ some o)
          × (settle_order_once p db ≡ (ok settled, with_settlement p o db))
    found good none e r = cc
    found good (some o) e r = elim (Bool-cases (is_final o.status)) [
      | inl final ↦ let no_result = rw (settle_existing, final) at r in cc
      | inr live ↦ (o, e, rw (good, e, settle_existing, live) (settle_found_lem p o db w.balanced))
    ]

-- In well-formed tables, settling is idempotent: after a settlement that succeeded, every further
-- valid payload for the same client order, whatever its verdict, is answered as already final and
-- writes nothing.
pub settle_order_once-settled :
    (p q : SettlementPayload) (db : Db)
    → WellFormed db
    → (settle_order_once p db).0 ≡ ok settled
    → q.client_order_id ≡ p.client_order_id
    → parses q ≡ true
    → settle_order_once q (settle_order_once p db).1
      ≡ (ok already_final, (settle_order_once p db).1)
settle_order_once-settled p q db w h same good =
    let (o, found, done) = settled-inversion p db w h in
    let later = find-with_settlement p o db found in
    rw done (
      final_blocks q (with_settlement p o db) (settled_order p o) good (rw same later)
        (final_status-settled p o))
