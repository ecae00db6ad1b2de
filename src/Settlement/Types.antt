-- ===== src/Settlement/Types.antt =====
-- src/settlement/types.ts, and the tables `settlement_orders` and `ledger_entries` that
-- authoritative-settlement-engine.ts reads and writes. Amounts count units of 10⁻⁸, the precision
-- that `toFixed(8)` stores; a multiplier counts units of 10⁻⁸ too. The columns `evidence` and the
-- timestamps of updates, which no code here reads, are left out.
use crash_wave.Prelude.{ℕ, Bool, true, false, Option, String, List}

pub data OrderStatus : Type 0 where
  order_intent dispatched pending_settlement reconciling : OrderStatus
  settled_win settled_loss void failed : OrderStatus

-- `status` of a settlement payload.
pub data Verdict : Type 0 where
  win loss cancelled : Verdict

pub data Account : Type 0 where
  hot_wallet unsettled realized_pnl house_edge : Account

pub record SettlementPayload : Type 0 where
  pub client_order_id : String
  pub verdict : Verdict
  pub gross_payout : ℕ
  pub multiplier : ℕ
  pub settled_at : ℕ
  pub external_reference : Option String

pub record CreateOrderIntent : Type 0 where
  pub client_order_id : String
  pub tenant_id : Option String
  pub bet_id : Option String
  pub game_id : Option String
  pub round_id : Option String
  pub wager_amount : ℕ
  pub target_multiplier : ℕ

-- A row of `settlement_orders`. The id is a number in place of a random UUID.
pub record Order : Type 0 where
  pub id : ℕ
  pub client_order_id : String
  pub tenant_id : Option String
  pub bet_id : Option String
  pub game_id : Option String
  pub round_id : Option String
  pub wager_amount : ℕ
  pub target_multiplier : ℕ
  pub status : OrderStatus
  pub gross_payout : Option ℕ
  pub exit_multiplier : Option ℕ
  pub settled_at : Option ℕ
  pub external_reference : Option String

-- A row of `ledger_entries`.
pub record LedgerEntry : Type 0 where
  pub order_id : ℕ
  pub account : Account
  pub debit : ℕ
  pub credit : ℕ
  pub memo : String

-- The two tables; `next_id` stands for the generator of ids, which never gives one twice.
pub record Db : Type 0 where
  pub orders : List Order
  pub entries : List LedgerEntry
  pub next_id : ℕ

pub data SettlementError : Type 0 where
  invalid_payload order_not_found ledger_imbalance : SettlementError

pub data Result (A : Type 0) : Type 0 where
  ok : A → Result A
  err : SettlementError → Result A

-- The statuses that `settleOrder` takes for final.
abbrev pub is_final : OrderStatus → Bool
is_final settled_win = true
is_final settled_loss = true
is_final void = true
is_final _ = false
