-- ===== src/Settlement/Balance.antt =====
-- Debits and credits of an order in authoritative-settlement-engine.ts.
use Prim.Native.Nat.{ℕ, ◌+◌, ◌-◌}
use crash_wave.Prelude.{
  ◌≡◌, ◌≢◌, true, Option, none, some, List, ◌==◌, arith, if◌then◌else◌, String, Bool-cases, inl,
  inr,
}
use crash_wave.Settlement.Types.{
  Verdict, win, loss, cancelled, Account, SettlementPayload, CreateOrderIntent, Order, LedgerEntry,
  Db, Result, ok, err, ledger_imbalance, is_final,
}
use crash_wave.Settlement.Engine.{
  insert_entry, payout_entry, pnl_entry, Side, debits, credits, order_total, is_balanced,
  intent_entries, settle_entries, insert_intent, settle_found, settle_existing, with_intent,
  with_settlement, settled, create_order_intent_once, settle_order_once, find_order, parses,
  create_missing,
}

abbrev pub part : Side → ℕ → ℕ → ℕ
part debits d c = d
part credits d c = c

pub order_total-insert_entry :
    (s : Side) (id : ℕ) (i : ℕ) (a : Account) (d c : ℕ) (memo : String) (es : List LedgerEntry)
    → order_total s id (insert_entry i a d c memo es)
      ≡ (if i == id then part s d c else 0) + order_total s id es
unfolding order_total insert_entry
order_total-insert_entry debits id i a d c memo es = ground arith
order_total-insert_entry credits id i a d c memo es = ground arith

pub order_total-payout_entry :
    (s : Side) (id i gross : ℕ) (es : List LedgerEntry)
    → order_total s id (payout_entry i gross es)
      ≡ (if i == id then part s gross 0 else 0) + order_total s id es
unfolding order_total payout_entry
order_total-payout_entry debits id i gross es = ground arith
order_total-payout_entry credits id i gross es = ground arith

pub order_total-pnl_entry :
    (s : Side) (id i wager gross : ℕ) (es : List LedgerEntry)
    → order_total s id (pnl_entry i wager gross es)
      ≡ (if i == id then part s (wager - gross) (gross - wager) else 0) + order_total s id es
unfolding order_total pnl_entry
order_total-pnl_entry debits id i wager gross es = ground arith
order_total-pnl_entry credits id i wager gross es = ground arith

ruleset order_totals = (order_total-insert_entry, order_total-payout_entry, order_total-pnl_entry)

-- The debits of an order equal its credits.
abbrev pub IsEven : ℕ → List LedgerEntry → Type 0
IsEven id es = order_total debits id es ≡ order_total credits id es

abbrev pub Balanced : Db → Type 0
Balanced db = (id : ℕ) → IsEven id db.entries

is_balanced-IsEven : (id : ℕ) (es : List LedgerEntry) → IsEven id es → is_balanced id es ≡ true
unfolding is_balanced
is_balanced-IsEven id es h = ground arith

IsEven-intent_entries :
    (id i wager : ℕ) (es : List LedgerEntry) → IsEven id es → IsEven id (intent_entries i wager es)
unfolding intent_entries
IsEven-intent_entries id i wager es h = simp order_totals (ground arith)

IsEven-settle_entries :
    (id i wager : ℕ) (v : Verdict) (gross : ℕ) (es : List LedgerEntry)
    → IsEven id es
    → IsEven id (settle_entries i wager v gross es)
unfolding settle_entries
IsEven-settle_entries id i wager cancelled gross es h = simp order_totals (ground arith)
IsEven-settle_entries id i wager loss gross es h = simp order_totals (ground arith)
IsEven-settle_entries id i wager win gross es h = simp order_totals (ground arith)

pub insert_intent_lem :
    (i : CreateOrderIntent) (db : Db)
    → Balanced db
    → insert_intent i db ≡ (ok db.next_id, with_intent i db)
unfolding insert_intent
insert_intent_lem i db h = rw (
    is_balanced-IsEven db.next_id (intent_entries db.next_id i.wager_amount db.entries)
      (IsEven-intent_entries db.next_id db.next_id i.wager_amount db.entries (h db.next_id)))

pub settle_found_lem :
    (p : SettlementPayload) (o : Order) (db : Db)
    → Balanced db
    → settle_found p o db ≡ (ok settled, with_settlement p o db)
unfolding settle_found
settle_found_lem p o db h = rw (
    is_balanced-IsEven o.id (settle_entries o.id o.wager_amount p.verdict p.gross_payout db.entries)
      (IsEven-settle_entries o.id o.id o.wager_amount p.verdict p.gross_payout db.entries (h o.id)))

pub with_intent-Balanced :
    (i : CreateOrderIntent) (db : Db) → Balanced db → Balanced (with_intent i db)
with_intent-Balanced i db h id =
    IsEven-intent_entries id db.next_id i.wager_amount db.entries (h id)

pub with_settlement-Balanced :
    (p : SettlementPayload) (o : Order) (db : Db) → Balanced db → Balanced (with_settlement p o db)
with_settlement-Balanced p o db h id =
    IsEven-settle_entries id o.id o.wager_amount p.verdict p.gross_payout db.entries (h id)

abbrev pub NoImbalance : {A : Type 0} → Result A → Type 0
NoImbalance r = r ≢ err ledger_imbalance

-- When debits and credits of every order are equal, creating an intent keeps them so and never
-- fails the check.
pub create_order_intent_once-Balanced :
    (i : CreateOrderIntent) (db : Db)
    → Balanced db
    → Balanced (create_order_intent_once i db).1 × NoImbalance (create_order_intent_once i db).0
unfolding create_order_intent_once
create_order_intent_once-Balanced i db h = missing (find_order i.client_order_id db.orders)
  where
    missing :
        (fo : Option Order)
        → Balanced (create_missing i db fo).1 × NoImbalance (create_missing i db fo).0
    missing (some o) = (h, λ p. cc)
    missing none =
        rw (create_missing, insert_intent_lem i db h) (with_intent-Balanced i db h, λ p. cc)

-- When debits and credits of every order are equal, a settlement keeps them so and never fails the
-- check, for every payload: a win that pays less than the wager, a void and a loss included.
pub settle_order_once-Balanced :
    (p : SettlementPayload) (db : Db)
    → Balanced db
    → Balanced (settle_order_once p db).1 × NoImbalance (settle_order_once p db).0
unfolding settle_order_once
settle_order_once-Balanced p db h = elim (Bool-cases (parses p)) [
  | inr bad ↦ rw bad (h, λ q. cc)
  | inl good ↦ rw good (found (find_order p.client_order_id db.orders))
]
  where
    found :
        (fo : Option Order)
        → Balanced (settle_existing p db fo).1 × NoImbalance (settle_existing p db fo).0
    found none = (h, λ q. cc)
    found (some o) = elim (Bool-cases (is_final o.status)) [
      | inl final ↦ rw final (h, λ q. cc)
      | inr live ↦ rw (live, settle_found_lem p o db h) (with_settlement-Balanced p o db h, λ q. cc)
    ]
