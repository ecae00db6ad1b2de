-- ===== src/Virtual/Books.antt =====
-- The account of src/core/dry-run/virtual-ledger.ts over any sequence of calls.
use text.Mathlib.Text.{◌==◌ as str_eq}
use crash_wave.Prelude.{
  ℕ, ◌+◌, ◌*◌, ◌≤◌, ◌≡◌, refl, ◌∙◌, ap, String, Option, none, some, Bool, true, false, List, [],
  ◌∷◌, ◌++◌, get_key, set_key, or_else, ltb, leb, if◌then◌else◌, length, arith, Bool-cases, inl,
  inr, if_cases, if_both, set_key-new, length-set_key, length-append, some_inj,
}
use crash_wave.Prelude.Int.{pos_part, neg_part, sub_ℕ, +ℤ_parts, sub_ℕ_parts}
use crash_wave.Virtual.Ledger.{
  VirtualTradeStatus, VirtualTrade, TradeParams, VirtualTradeLedger, amount, update_drawdown,
  new_trade, enter, open_trade, won, missed, settle, is_open_status, settle_found, settle_all,
  resolve_round, seen_signal,
}

abbrev Trades : Type 0
Trades = List (String × VirtualTrade)

abbrev stake_in : VirtualTradeStatus → ℕ → ℕ
stake_in s stake = if is_open_status s then amount stake else 0

abbrev one_in : VirtualTradeStatus → ℕ
one_in s = if is_open_status s then 1 else 0

-- The stakes of the open trades, and their number.
abbrev pub open_stakes : Trades → ℕ
open_stakes [] = 0
open_stakes ((k, t) ∷ m) = stake_in t.status t.stake + open_stakes m

abbrev pub open_count : Trades → ℕ
open_count [] = 0
open_count ((k, t) ∷ m) = one_in t.status + open_count m

open-set_key :
    (k : String) (t u : VirtualTrade) (m : Trades)
    → get_key k m ≡ some t
    → (open_stakes (set_key k u m) + stake_in t.status t.stake
        ≡ open_stakes m + stake_in u.status u.stake)
      × (open_count (set_key k u m) + one_in t.status ≡ open_count m + one_in u.status)
unfolding get_key set_key
open-set_key k t u [] h = cc
open-set_key k t u ((j, v) ∷ m) h = elim (Bool-cases (str_eq j k)) [
  | inl hit ↦ rw hit (same (rw hit at h))
  | inr miss ↦
      let ih = open-set_key k t u m (rw miss at h) in
      rw miss (omega (arith, ih.0), omega (arith, ih.1))
]
  where
    same :
        some v ≡ some t
        → (stake_in u.status u.stake + open_stakes m + stake_in t.status t.stake
            ≡ stake_in v.status v.stake + open_stakes m + stake_in u.status u.stake)
          × (one_in u.status + open_count m + one_in t.status
              ≡ one_in v.status + open_count m + one_in u.status)
    same e =
        let a = ap (λ (x : VirtualTrade). stake_in x.status x.stake) (some_inj e) in
        let n = ap (λ (x : VirtualTrade). one_in x.status) (some_inj e) in
        (omega (arith, a), omega (arith, n))

open-append :
    (m n : Trades)
    → (open_stakes (m ++ n) ≡ open_stakes m + open_stakes n)
      × (open_count (m ++ n) ≡ open_count m + open_count n)
open-append [] n = (omega arith, omega arith)
open-append ((k, t) ∷ m) n = let ih = open-append m n in (omega (arith, ih.0), omega (arith, ih.1))

-- What came in is what is at hand, what is staked and what was lost less what was won, and every
-- trade is open, won or lost.
abbrev pub Books : VirtualTradeLedger → Type 0
Books l =
    (l.initial_balance + pos_part l.net_pnl ≡ l.balance + open_stakes l.trades + neg_part l.net_pnl)
    × (l.wins + l.losses + open_count l.trades ≡ length l.trades)

enter-Books :
    (p : TradeParams) (l : VirtualTradeLedger)
    → get_key p.virtual_trade_id l.trades ≡ none
    → amount p.stake ≤ l.balance
    → Books l
    → Books (enter p l)
unfolding enter update_drawdown new_trade
enter-Books p l fresh enough (b, c) =
    let m = (p.virtual_trade_id, new_trade p) ∷ [] in
    let new = set_key-new p.virtual_trade_id (new_trade p) l.trades fresh in
    let s = ap open_stakes new ∙ (open-append l.trades m).0 in
    let n = ap open_count new ∙ (open-append l.trades m).1 in
    let k = ap length new ∙ length-append l.trades m in (omega (arith, s), omega (arith, n, k))

settle-Books :
    (id : String) (crash : ℕ) (t : VirtualTrade) (l : VirtualTradeLedger)
    → get_key id l.trades ≡ some t
    → is_open_status t.status ≡ true
    → Books l
    → Books (settle id crash t l)
unfolding settle update_drawdown won missed
settle-Books id crash t l found isopen (b, c) =
    let w = open-set_key id t (won crash t) l.trades found in
    let m = open-set_key id t (missed crash t) l.trades found in
    let kw = length-set_key id (won crash t) t l.trades found in
    let km = length-set_key id (missed crash t) t l.trades found in
    let a = ap (λ (x : Bool). if x then amount t.stake else 0) isopen in
    let n = ap {B = ℕ} (λ (x : Bool). if x then 1 else 0) isopen in
    if_both Books (leb t.target crash)
      (
        omega (
          arith,
          w.0,
          a,
          +ℤ_parts l.net_pnl (sub_ℕ (t.stake * t.target) (amount t.stake)),
          sub_ℕ_parts (t.stake * t.target) (amount t.stake),
        ),
        omega (arith, w.1, n, kw),
      )
      (
        omega (
          arith,
          m.0,
          a,
          +ℤ_parts l.net_pnl (sub_ℕ 0 (amount t.stake)),
          sub_ℕ_parts 0 (amount t.stake),
        ),
        omega (arith, m.1, n, km),
      )

settle_found-Books :
    (id : String) (crash : ℕ) (o : Option VirtualTrade) (l : VirtualTradeLedger)
    → get_key id l.trades ≡ o
    → Books l
    → Books (settle_found id crash o l)
unfolding settle_found
settle_found-Books id crash none l e h = h
settle_found-Books id crash (some t) l e h =
    if_cases Books (is_open_status t.status)
      (λ (on : is_open_status t.status ≡ true). settle-Books id crash t l e on h) (λ _. h)

settle_all-Books :
    (ids : List String) (crash : ℕ) (l : VirtualTradeLedger)
    → Books l
    → Books (settle_all ids crash l)
unfolding settle_all
settle_all-Books [] crash l h = h
settle_all-Books (id ∷ ids) crash l h =
    settle_all-Books ids crash (settle_found id crash (get_key id l.trades) l)
      (settle_found-Books id crash (get_key id l.trades) l refl h)

pub data LedgerCall : Type 0 where
  open_call : TradeParams → LedgerCall
  resolve_call : String → ℕ → LedgerCall

abbrev pub apply : LedgerCall → VirtualTradeLedger → VirtualTradeLedger
apply (open_call p) l = (open_trade p l).1
apply (resolve_call round crash) l = resolve_round round crash l

abbrev pub run_calls : List LedgerCall → VirtualTradeLedger → VirtualTradeLedger
run_calls [] l = l
run_calls (c ∷ cs) l = run_calls cs (apply c l)

-- No trade is opened under the identifier of one that the ledger knows.
abbrev pub NewNames : List LedgerCall → VirtualTradeLedger → Type 0
NewNames [] l = Unit
NewNames (open_call p ∷ cs) l =
    (get_key p.virtual_trade_id l.trades ≡ none) × NewNames cs (open_trade p l).1
NewNames (resolve_call round crash ∷ cs) l = NewNames cs (resolve_round round crash l)

open_trade-Books :
    (p : TradeParams) (l : VirtualTradeLedger)
    → get_key p.virtual_trade_id l.trades ≡ none
    → Books l
    → Books (open_trade p l).1
unfolding open_trade
open_trade-Books p l fresh h =
    if_both (λ (w : Option VirtualTrade × VirtualTradeLedger). Books w.1)
      (seen_signal p.signal_id l.by_signal) h
      (if_cases (λ (w : Option VirtualTrade × VirtualTradeLedger). Books w.1)
        (ltb l.balance (amount p.stake)) (λ _. h)
        (λ (covered : ltb l.balance (amount p.stake) ≡ false).
          enter-Books p l fresh (ground arith) h))

-- When no identifier is used twice, any calls on a new ledger keep its account: the initial balance
-- and the net result are the balance at hand and the stakes of the open trades, and the trades are
-- the open, the won and the lost ones.
pub run_calls-Books :
    (cs : List LedgerCall) (l : VirtualTradeLedger)
    → NewNames cs l
    → Books l
    → Books (run_calls cs l)
unfolding resolve_round
run_calls-Books [] l n h = h
run_calls-Books (open_call p ∷ cs) l (fresh, n) h =
    run_calls-Books cs (open_trade p l).1 n (open_trade-Books p l fresh h)
run_calls-Books (resolve_call round crash ∷ cs) l n h =
    run_calls-Books cs (resolve_round round crash l) n
      (settle_all-Books (or_else (get_key round l.by_round) []) crash l h)
