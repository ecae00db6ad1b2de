-- ===== src/Settlement/Journal.antt =====
-- The journal against the orders: what the entries of each account sum to.
use Prim.Native.Nat.{ℕ, ◌+◌, ◌-◌}
use crash_wave.Prelude.{
  ◌≡◌, Bool, false, List, [], ◌∷◌, ◌==◌, arith, if◌then◌else◌, or_else, String,
}
use crash_wave.Settlement.Types.{
  OrderStatus, settled_win, settled_loss, void, Verdict, win, loss, cancelled, Account, hot_wallet,
  unsettled, realized_pnl, house_edge, SettlementPayload, CreateOrderIntent, Order, LedgerEntry,
  is_final,
}
use crash_wave.Settlement.Engine.{
  insert_entry, payout_entry, pnl_entry, Side, debits, credits, amount, intent_entries,
  settle_entries, new_order, settled_order, final_status,
}
use crash_wave.Settlement.Balance.{part}

abbrev account_index : Account → ℕ
account_index hot_wallet = 0
account_index unsettled = 1
account_index realized_pnl = 2
account_index house_edge = 3

abbrev same_account : Account → Account → Bool
same_account a b = account_index a == account_index b

-- The sum of one side of an account over the whole journal.
unfoldable pub account_total : Side → Account → List LedgerEntry → ℕ
account_total s a [] = 0
account_total s a (e ∷ es) =
    (if same_account e.account a then amount s e else 0) + account_total s a es

-- What a final order has paid out, and its loss and its profit.
abbrev payout : OrderStatus → ℕ → ℕ → ℕ
payout settled_win wager gross = gross
payout void wager gross = wager
payout _ wager gross = 0

abbrev loss_of : OrderStatus → ℕ → ℕ → ℕ
loss_of settled_win wager gross = wager - gross
loss_of settled_loss wager gross = wager
loss_of _ wager gross = 0

abbrev profit_of : OrderStatus → ℕ → ℕ → ℕ
profit_of settled_win wager gross = gross - wager
profit_of _ wager gross = 0

-- What an order owes to one side of an account, by its status alone: its wager is exposed, and
-- closed when it is final; the hot wallet gives the wager and gets the payout; the rest is profit
-- or loss.
abbrev pub due : Side → Account → Order → ℕ
due debits unsettled o = o.wager_amount
due credits unsettled o = if is_final o.status then o.wager_amount else 0
due credits hot_wallet o = o.wager_amount
due debits hot_wallet o = payout o.status o.wager_amount (or_else o.gross_payout 0)
due debits realized_pnl o = loss_of o.status o.wager_amount (or_else o.gross_payout 0)
due credits realized_pnl o = profit_of o.status o.wager_amount (or_else o.gross_payout 0)
due _ house_edge o = 0

account_total-insert_entry :
    (s : Side) (a : Account) (i : ℕ) (b : Account) (d c : ℕ) (memo : String) (es : List LedgerEntry)
    → account_total s a (insert_entry i b d c memo es)
      ≡ (if same_account b a then part s d c else 0) + account_total s a es
unfolding account_total insert_entry
account_total-insert_entry debits a i b d c memo es = ground arith
account_total-insert_entry credits a i b d c memo es = ground arith

account_total-payout_entry :
    (s : Side) (a : Account) (i gross : ℕ) (es : List LedgerEntry)
    → account_total s a (payout_entry i gross es)
      ≡ (if same_account hot_wallet a then part s gross 0 else 0) + account_total s a es
unfolding account_total payout_entry
account_total-payout_entry debits a i gross es = ground arith
account_total-payout_entry credits a i gross es = ground arith

account_total-pnl_entry :
    (s : Side) (a : Account) (i wager gross : ℕ) (es : List LedgerEntry)
    → account_total s a (pnl_entry i wager gross es)
      ≡ (if same_account realized_pnl a then part s (wager - gross) (gross - wager) else 0)
        + account_total s a es
unfolding account_total pnl_entry
account_total-pnl_entry debits a i wager gross es = ground arith
account_total-pnl_entry credits a i wager gross es = ground arith

ruleset account_totals =
    (account_total-insert_entry, account_total-payout_entry, account_total-pnl_entry)

-- An intent books what its order owes.
pub account_total-intent_entries :
    (s : Side) (a : Account) (id : ℕ) (i : CreateOrderIntent) (es : List LedgerEntry)
    → account_total s a (intent_entries id i.wager_amount es)
      ≡ due s a (new_order id i) + account_total s a es
unfolding intent_entries new_order
account_total-intent_entries debits hot_wallet id i es = simp account_totals (ground arith)
account_total-intent_entries _ _ id i es = simp account_totals (ground arith)

-- What an order owes while it is not final.
abbrev due_before : Side → Account → ℕ → ℕ
due_before debits unsettled wager = wager
due_before credits hot_wallet wager = wager
due_before _ _ wager = 0

pub due-unsettled :
    (s : Side) (a : Account) (o : Order)
    → is_final o.status ≡ false
    → due s a o ≡ due_before s a o.wager_amount
due-unsettled debits hot_wallet o h = ground arith
due-unsettled _ _ o h = ground arith

-- What it owes after a settlement.
abbrev due_after : Side → Account → ℕ → Verdict → ℕ → ℕ
due_after debits unsettled wager v gross = wager
due_after credits unsettled wager v gross = wager
due_after credits hot_wallet wager v gross = wager
due_after debits hot_wallet wager v gross = payout (final_status v) wager gross
due_after debits realized_pnl wager v gross = loss_of (final_status v) wager gross
due_after credits realized_pnl wager v gross = profit_of (final_status v) wager gross
due_after _ house_edge wager v gross = 0

settle_entries_lem :
    (v : Verdict) (s : Side) (a : Account) (id wager gross : ℕ) (es : List LedgerEntry)
    → account_total s a (settle_entries id wager v gross es) + due_before s a wager
      ≡ due_after s a wager v gross + account_total s a es
unfolding settle_entries
settle_entries_lem win debits hot_wallet id wager gross es = simp account_totals (ground arith)
settle_entries_lem win _ _ id wager gross es = simp account_totals (ground arith)
settle_entries_lem loss debits hot_wallet id wager gross es = simp account_totals (ground arith)
settle_entries_lem loss _ _ id wager gross es = simp account_totals (ground arith)
settle_entries_lem cancelled _ _ id wager gross es = simp account_totals (ground arith)

due-settled_order :
    (s : Side) (a : Account) (p : SettlementPayload) (o : Order)
    → due s a (settled_order p o) ≡ due_after s a o.wager_amount p.verdict p.gross_payout
unfolding settled_order
due-settled_order debits hot_wallet p o = ground arith
due-settled_order _ _ p o = ground arith

-- A settlement books the difference between what its order owes after it and before.
pub account_total-settle_entries :
    (s : Side) (a : Account) (p : SettlementPayload) (o : Order) (es : List LedgerEntry)
    → is_final o.status ≡ false
    → account_total s a (settle_entries o.id o.wager_amount p.verdict p.gross_payout es) + due s a o
      ≡ due s a (settled_order p o) + account_total s a es
account_total-settle_entries s a p o es h =
    rw (due-unsettled s a o h, due-settled_order s a p o)
      (settle_entries_lem p.verdict s a o.id o.wager_amount p.gross_payout es)
