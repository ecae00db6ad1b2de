-- ===== src/Settlement/Boot/Effects.antt =====
-- What a boot of src/settlement/boot-reconcile.ts does to the engine's tables.
use mathlib.Core.Path.{subst}
use crash_wave.Prelude.{
  ℕ, suc, ◌+◌, ◌≡◌, refl, sym, ◌∙◌, ap, Option, none, some, true, String, List, [], ◌∷◌, ◌++◌,
  length, arith,
}
use crash_wave.Betting.Types.{Outcome, returned, threw}
use crash_wave.Settlement.Types.{Verdict, Order, Db, Result, ok, err, is_final}
use crash_wave.Settlement.Engine.{settle_order_once, find_order, Settled}
use crash_wave.Settlement.WellFormed.{WellFormed}
use crash_wave.Settlement.Books.{EngineCall, reconcile, settle, apply, run_calls}
use crash_wave.Settlement.Lasting.{run_calls-final}
use crash_wave.Settlement.Boot.{
  SettlementEvidence, BootReconcileResult, Provider, open_rows, verdict_of, payload_of, ItemEnd,
  item_settled, item_open, item_error, settle_end, by_verdict, by_evidence, reconcile_item, counted,
  reconcile_rows, none_counted, boot_reconcile,
}

-- The engine calls of an item.
abbrev verdict_calls : Option Verdict → ℕ → SettlementEvidence → Order → List EngineCall
verdict_calls (some v) now e o = settle (payload_of now o e v) ∷ []
verdict_calls none now e o = reconcile o.client_order_id ∷ []

abbrev evidence_calls : Outcome (Option SettlementEvidence) → ℕ → Order → List EngineCall
evidence_calls (threw m) now o = []
evidence_calls (returned none) now o = reconcile o.client_order_id ∷ []
evidence_calls (returned (some e)) now o = verdict_calls (verdict_of e.status) now e o

abbrev item_calls : Provider → ℕ → Order → List EngineCall
item_calls none now o = reconcile o.client_order_id ∷ []
item_calls (some p) now o = evidence_calls (p o.client_order_id) now o

abbrev boot_calls : Provider → ℕ → List Order → List EngineCall
boot_calls p now [] = []
boot_calls p now (o ∷ os) = item_calls p now o ++ boot_calls p now os

settle_end-db : (w : Result Settled × Db) → (settle_end w).1 ≡ w.1
settle_end-db (ok s, db) = refl
settle_end-db (err e, db) = refl

by_verdict-db :
    (v : Option Verdict) (now : ℕ) (e : SettlementEvidence) (o : Order) (db : Db)
    → (by_verdict v now e o db).1 ≡ run_calls (verdict_calls v now e o) db
unfolding by_verdict run_calls
by_verdict-db (some v) now e o db = settle_end-db (settle_order_once (payload_of now o e v) db)
by_verdict-db none now e o db = refl

by_evidence-db :
    (a : Outcome (Option SettlementEvidence)) (now : ℕ) (o : Order) (db : Db)
    → (by_evidence a now o db).1 ≡ run_calls (evidence_calls a now o) db
unfolding by_evidence run_calls
by_evidence-db (threw m) now o db = refl
by_evidence-db (returned none) now o db = refl
by_evidence-db (returned (some e)) now o db = by_verdict-db (verdict_of e.status) now e o db

item-db :
    (p : Provider) (now : ℕ) (o : Order) (db : Db)
    → (reconcile_item p now o db).1 ≡ run_calls (item_calls p now o) db
unfolding reconcile_item run_calls
item-db none now o db = refl
item-db (some p) now o db = by_evidence-db (p o.client_order_id) now o db

run_calls-append :
    (xs ys : List EngineCall) (db : Db) → run_calls (xs ++ ys) db ≡ run_calls ys (run_calls xs db)
unfolding run_calls
run_calls-append [] ys db = refl
run_calls-append (x ∷ xs) ys db = run_calls-append xs ys (apply x db)

rows-db :
    (p : Provider) (now : ℕ) (os : List Order) (r : BootReconcileResult) (db : Db)
    → (reconcile_rows p now os r db).1 ≡ run_calls (boot_calls p now os) db
unfolding reconcile_rows run_calls
rows-db p now [] r db = refl
rows-db p now (o ∷ os) r db =
    let w = reconcile_item p now o db in
    rows-db p now os (counted w.0 r) w.1
    ∙ ap (run_calls (boot_calls p now os)) (item-db p now o db)
    ∙ sym (run_calls-append (item_calls p now o) (boot_calls p now os) db)

-- A call that a boot may make: a mark, or a settlement by the verdict that the provider's evidence
-- gives for that order.
abbrev pub Backed : Provider → EngineCall → Type 0
Backed p (reconcile c) = Unit
Backed p (settle s) =
    (q : String → Outcome (Option SettlementEvidence)) × (e : SettlementEvidence) × (p ≡ some q)
    × (q s.client_order_id ≡ returned (some e))
    × (verdict_of e.status ≡ some s.verdict)
Backed p _ = ⊥

abbrev pub AllBacked : Provider → List EngineCall → Type 0
AllBacked p [] = Unit
AllBacked p (c ∷ cs) = Backed p c × AllBacked p cs

AllBacked-append :
    (p : Provider) (xs ys : List EngineCall)
    → AllBacked p xs
    → AllBacked p ys
    → AllBacked p (xs ++ ys)
AllBacked-append p [] ys h k = k
AllBacked-append p (x ∷ xs) ys (b, h) k = (b, AllBacked-append p xs ys h k)

verdict-Backed :
    (q : String → Outcome (Option SettlementEvidence)) (v : Option Verdict) (now : ℕ)
    (e : SettlementEvidence) (o : Order)
    → q o.client_order_id ≡ returned (some e)
    → verdict_of e.status ≡ v
    → AllBacked (some q) (verdict_calls v now e o)
unfolding payload_of
verdict-Backed q (some v) now e o a h = ((q, e, refl, a, h), tt)
verdict-Backed q none now e o a h = (tt, tt)

evidence-Backed :
    (q : String → Outcome (Option SettlementEvidence)) (a : Outcome (Option SettlementEvidence))
    (now : ℕ) (o : Order)
    → q o.client_order_id ≡ a
    → AllBacked (some q) (evidence_calls a now o)
evidence-Backed q (threw m) now o h = tt
evidence-Backed q (returned none) now o h = (tt, tt)
evidence-Backed q (returned (some e)) now o h =
    verdict-Backed q (verdict_of e.status) now e o h refl

item-Backed : (p : Provider) (now : ℕ) (o : Order) → AllBacked p (item_calls p now o)
item-Backed none now o = (tt, tt)
item-Backed (some q) now o = evidence-Backed q (q o.client_order_id) now o refl

boot-Backed : (p : Provider) (now : ℕ) (os : List Order) → AllBacked p (boot_calls p now os)
boot-Backed p now [] = tt
boot-Backed p now (o ∷ os) =
    AllBacked-append p (item_calls p now o) (boot_calls p now os) (item-Backed p now o)
      (boot-Backed p now os)

-- A boot leaves the tables as some sequence of engine calls does, in which every call marks an
-- order or settles one by the verdict that the provider's evidence gives for it.
pub boot_reconcile-Backed :
    (p : Provider) (now limit : ℕ) (db : Db)
    → (cs : List EngineCall) × AllBacked p cs
      × ((boot_reconcile p now limit db).1 ≡ run_calls cs db)
unfolding boot_reconcile
boot_reconcile-Backed p now limit db =
    let os = open_rows limit db in
    (boot_calls p now os, boot-Backed p now os, rows-db p now os (none_counted (length os)) db)

-- In well-formed tables, an order that is final before a boot is found unchanged after it.
pub boot_reconcile-final :
    (p : Provider) (now limit : ℕ) (db : Db) (c : String) (o : Order)
    → WellFormed db
    → find_order c db.orders ≡ some o
    → is_final o.status ≡ true
    → find_order c (boot_reconcile p now limit db).1.orders ≡ some o
boot_reconcile-final p now limit db c o w h f =
    let (cs, _, e) = boot_reconcile-Backed p now limit db in
    subst (λ (d : Db). find_order c d.orders ≡ some o) (sym e) (run_calls-final cs c o db w h f).0

-- A result counts orders that have ended, and none as voided.
abbrev Balanced : ℕ → BootReconcileResult → Type 0
Balanced left r = (r.open_orders ≡ r.settled + r.still_open + r.errors + left) × (r.voided ≡ 0)

counted-Balanced :
    (e : ItemEnd) (left : ℕ) (r : BootReconcileResult)
    → Balanced (suc left) r
    → Balanced left (counted e r)
unfolding counted
counted-Balanced item_settled left r h = (omega (arith, h.0), h.1)
counted-Balanced item_open left r h = (omega (arith, h.0), h.1)
counted-Balanced item_error left r h = (omega (arith, h.0), h.1)

rows-Balanced :
    (p : Provider) (now : ℕ) (os : List Order) (r : BootReconcileResult) (db : Db)
    → Balanced (length os) r
    → Balanced 0 (reconcile_rows p now os r db).0
unfolding reconcile_rows
rows-Balanced p now [] r db h = h
rows-Balanced p now (o ∷ os) r db h =
    let w = reconcile_item p now o db in
    rows-Balanced p now os (counted w.0 r) w.1 (counted-Balanced w.0 (length os) r h)

-- Every open order that a boot reads is counted once: as settled, as still open or as an error.
-- None is counted as voided, also when the evidence voids it.
pub boot_reconcile-counts :
    (p : Provider) (now limit : ℕ) (db : Db)
    → let r = (boot_reconcile p now limit db).0 in
      (r.open_orders ≡ r.settled + r.still_open + r.errors) × (r.voided ≡ 0)
unfolding boot_reconcile
boot_reconcile-counts p now limit db =
    let os = open_rows limit db in
    let h = rows-Balanced p now os (none_counted (length os)) db (omega arith, refl) in
    (omega (arith, h.0), h.1)
