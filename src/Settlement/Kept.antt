-- ===== src/Settlement/Kept.antt =====
-- The journal's entries of one order, under the entries of another.
use crash_wave.Prelude.{
  ℕ, ◌-◌, ◌≡◌, refl, ◌∙◌, false, ◌&&◌, String, List, ◌==◌, ltb, select, if_both,
}
use crash_wave.Settlement.Types.{
  LedgerEntry, Verdict, win, loss, cancelled, Account, hot_wallet, unsettled, realized_pnl,
}
use crash_wave.Settlement.Engine.{
  insert_entry, intent_entries, payout_entry, pnl_entry, settle_entries,
}

-- The journal's entries of an order.
abbrev pub entries_of : ℕ → List LedgerEntry → List LedgerEntry
entries_of id = select (λ e. id == e.order_id)

insert_entry-other :
    (i id : ℕ) (a : Account) (d c : ℕ) (memo : String) (es : List LedgerEntry)
    → (i == id) ≡ false
    → entries_of i (insert_entry id a d c memo es) ≡ entries_of i es
unfolding insert_entry
insert_entry-other i id a d c memo es h =
    if_both (λ (r : List LedgerEntry). entries_of i r ≡ entries_of i es) (d == 0 && c == 0) refl
      (rw h refl)

pub intent_entries-other :
    (i id wager : ℕ) (es : List LedgerEntry)
    → (i == id) ≡ false
    → entries_of i (intent_entries id wager es) ≡ entries_of i es
unfolding intent_entries
intent_entries-other i id wager es h =
    insert_entry-other i id hot_wallet 0 wager "wager lock" _ h
    ∙ insert_entry-other i id unsettled wager 0 "exposure open" es h

payout_entry-other :
    (i id gross : ℕ) (es : List LedgerEntry)
    → (i == id) ≡ false
    → entries_of i (payout_entry id gross es) ≡ entries_of i es
unfolding payout_entry
payout_entry-other i id gross es h =
    if_both (λ (r : List LedgerEntry). entries_of i r ≡ entries_of i es) (ltb 0 gross)
      (insert_entry-other i id hot_wallet gross 0 "payout" es h) refl

pnl_entry-other :
    (i id wager gross : ℕ) (es : List LedgerEntry)
    → (i == id) ≡ false
    → entries_of i (pnl_entry id wager gross es) ≡ entries_of i es
unfolding pnl_entry
pnl_entry-other i id wager gross es h =
    if_both (λ (r : List LedgerEntry). entries_of i r ≡ entries_of i es) (ltb wager gross)
      (insert_entry-other i id realized_pnl 0 (gross - wager) "pnl profit" es h)
      (if_both (λ (r : List LedgerEntry). entries_of i r ≡ entries_of i es) (ltb gross wager)
        (insert_entry-other i id realized_pnl (wager - gross) 0 "pnl residual" es h) refl)

pub settle_entries-other :
    (i id wager : ℕ) (v : Verdict) (gross : ℕ) (es : List LedgerEntry)
    → (i == id) ≡ false
    → entries_of i (settle_entries id wager v gross es) ≡ entries_of i es
unfolding settle_entries
settle_entries-other i id wager cancelled gross es h =
    insert_entry-other i id unsettled 0 wager "exposure close void" _ h
    ∙ insert_entry-other i id hot_wallet wager 0 "void refund" es h
settle_entries-other i id wager loss gross es h =
    insert_entry-other i id unsettled 0 wager "exposure close" _ h
    ∙ insert_entry-other i id realized_pnl wager 0 "pnl loss" es h
settle_entries-other i id wager win gross es h =
    pnl_entry-other i id wager gross _ h
    ∙ insert_entry-other i id unsettled 0 wager "exposure close" _ h
    ∙ payout_entry-other i id gross es h
