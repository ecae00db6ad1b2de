-- ===== src/Settlement/Boot.antt =====
-- src/settlement/boot-reconcile.ts over the engine's tables and any provider of evidence. A row of
-- the query is its order; the orders are stored latest first.
mod Effects
mod Tests
use mathlib.Core.Option
use crash_wave.Prelude.{
  ℕ, suc, ◌+◌, ◌≡◌, refl, Option, none, some, Bool, true, false, ◌||◌, not, String, List, [], ◌∷◌,
  ◌++◌, length, select, take, max, or_else, if◌then◌else◌,
}
use crash_wave.Betting.Types.{Outcome, returned, threw}
use crash_wave.Settlement.Types.{
  OrderStatus, failed, Verdict, cancelled, SettlementPayload, Order, Db, Result, ok, err, is_final,
}
use crash_wave.Settlement.Engine.{settle_order_once, mark_reconciling, one, coalesce, Settled}

pub data EvidenceStatus : Type 0 where
  win loss void pending unknown : EvidenceStatus

pub record SettlementEvidence : Type 0 where
  pub external_bet_id : Option String
  pub external_tx_ref : Option String
  pub status : EvidenceStatus
  pub multiplier : Option ℕ
  pub gross_payout : Option ℕ

pub record BootReconcileResult : Type 0 where
  pub open_orders : ℕ
  pub settled : ℕ
  pub voided : ℕ
  pub still_open : ℕ
  pub errors : ℕ

-- How the provider answers for an order; `none` stands for no provider.
abbrev pub Provider : Type 0
Provider = Option (String → Outcome (Option SettlementEvidence))

abbrev pub is_failed : OrderStatus → Bool
is_failed failed = true
is_failed _ = false

abbrev pub is_closed : Order → Bool
is_closed o = is_final o.status || is_failed o.status

abbrev pub oldest_first : List Order → List Order
oldest_first [] = []
oldest_first (o ∷ os) = oldest_first os ++ o ∷ []

-- The query, by age and with its limit.
unfoldable pub open_rows : ℕ → Db → List Order
open_rows limit db = take limit (select (λ o. not (is_closed o)) (oldest_first db.orders))

-- The verdict that settles an order, if the evidence gives one.
abbrev pub verdict_of : EvidenceStatus → Option Verdict
verdict_of EvidenceStatus.win = some Verdict.win
verdict_of EvidenceStatus.loss = some Verdict.loss
verdict_of EvidenceStatus.void = some cancelled
verdict_of _ = none

abbrev pub default_payout : Verdict → ℕ → ℕ
default_payout Verdict.loss wager = 0
default_payout _ wager = wager

unfoldable pub payload_of : ℕ → Order → SettlementEvidence → Verdict → SettlementPayload
payload_of now o e v = record {
  client_order_id = o.client_order_id;
  verdict = v;
  gross_payout = or_else e.gross_payout (default_payout v o.wager_amount);
  multiplier = max one (or_else e.multiplier one);
  settled_at = now;
  external_reference = coalesce e.external_tx_ref e.external_bet_id;
}

pub data ItemEnd : Type 0 where
  item_settled item_open item_error : ItemEnd

abbrev pub settle_end : Result Settled × Db → ItemEnd × Db
settle_end (ok s, db) = (item_settled, db)
settle_end (err e, db) = (item_error, db)

unfoldable pub by_verdict : Option Verdict → ℕ → SettlementEvidence → Order → Db → ItemEnd × Db
by_verdict (some v) now e o db = settle_end (settle_order_once (payload_of now o e v) db)
by_verdict none now e o db = (item_open, mark_reconciling o.client_order_id db)

unfoldable pub by_evidence : Outcome (Option SettlementEvidence) → ℕ → Order → Db → ItemEnd × Db
unfolding by_verdict
by_evidence (threw m) now o db = (item_error, db)
by_evidence (returned none) now o db = (item_open, mark_reconciling o.client_order_id db)
by_evidence (returned (some e)) now o db = by_verdict (verdict_of e.status) now e o db

-- The body of the loop.
unfoldable pub reconcile_item : Provider → ℕ → Order → Db → ItemEnd × Db
unfolding by_evidence
reconcile_item none now o db = (item_open, mark_reconciling o.client_order_id db)
reconcile_item (some p) now o db = by_evidence (p o.client_order_id) now o db

unfoldable pub counted : ItemEnd → BootReconcileResult → BootReconcileResult
counted item_settled r = record r { settled = r.settled + 1 }
counted item_open r = record r { still_open = r.still_open + 1 }
counted item_error r = record r { errors = r.errors + 1 }

unfoldable pub reconcile_rows :
    Provider → ℕ → List Order → BootReconcileResult → Db → BootReconcileResult × Db
unfolding counted reconcile_item
reconcile_rows p now [] r db = (r, db)
reconcile_rows p now (o ∷ os) r db =
    let (e, db') = reconcile_item p now o db in reconcile_rows p now os (counted e r) db'

abbrev pub none_counted : ℕ → BootReconcileResult
none_counted n = record { open_orders = n; settled = 0; voided = 0; still_open = 0; errors = 0 }

unfoldable pub boot_reconcile : Provider → ℕ → ℕ → Db → BootReconcileResult × Db
unfolding reconcile_rows open_rows
boot_reconcile p now limit db =
    let rows = open_rows limit db in reconcile_rows p now rows (none_counted (length rows)) db
