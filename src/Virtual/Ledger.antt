-- ===== src/Virtual/Ledger.antt =====
-- src/core/dry-run/virtual-ledger.ts. A stake is in cents and a target in hundredths; balances and
-- results are in hundredths of a cent, in which every payout is a whole number. Timestamps and the
-- identifiers that the ledger only stores are left out.
use crash_wave.Prelude.{
  ℕ, ◌+◌, ◌-◌, ◌*◌, String, Option, none, some, Bool, true, false, ◌&&◌, List, [], ◌∷◌, ◌++◌,
  get_key, set_key, or_else, truthy, ltb, leb, if◌then◌else◌,
}
use text.Mathlib.Text.{◌==◌ as str_eq}
use crash_wave.Prelude.Int.{ℤ, pos, sub_ℕ, ◌+ℤ◌}

pub data VirtualTradeStatus : Type 0 where
  opened win loss cancelled : VirtualTradeStatus

pub record VirtualTrade : Type 0 where
  pub virtual_trade_id : String
  pub signal_id : Option String
  pub round_id : String
  pub stake : ℕ
  pub target : ℕ
  pub status : VirtualTradeStatus
  pub crash_point : Option ℕ
  pub pnl : Option ℤ

pub record TradeParams : Type 0 where
  pub virtual_trade_id : String
  pub signal_id : Option String
  pub round_id : String
  pub stake : ℕ
  pub target : ℕ

-- A drawdown is a numerator and a denominator.
pub record VirtualTradeLedger : Type 0 where
  pub trades : List (String × VirtualTrade)
  pub by_round : List (String × List String)
  pub by_signal : List String
  pub balance : ℕ
  pub initial_balance : ℕ
  pub peak_equity : ℕ
  pub max_drawdown : ℕ × ℕ
  pub wins : ℕ
  pub losses : ℕ
  pub net_pnl : ℤ

abbrev pub new_ledger : ℕ → VirtualTradeLedger
new_ledger initial = record {
  trades = [];
  by_round = [];
  by_signal = [];
  balance = initial;
  initial_balance = initial;
  peak_equity = initial;
  max_drawdown = (0, 1);
  wins = 0;
  losses = 0;
  net_pnl = pos 0;
}

abbrev pub amount : ℕ → ℕ
amount stake = stake * 100

abbrev greater_fraction : ℕ × ℕ → ℕ × ℕ → Bool
greater_fraction (a, b) (c, d) = ltb (c * b) (a * d)

abbrev drawdown : ℕ → ℕ → ℕ × ℕ
drawdown peak balance = if ltb 0 peak then (peak - balance, peak) else (0, 1)

unfoldable pub update_drawdown : VirtualTradeLedger → VirtualTradeLedger
update_drawdown l =
    let peak = if ltb l.peak_equity l.balance then l.balance else l.peak_equity in
    let dd = drawdown peak l.balance in
    record l {
      peak_equity = peak;
      max_drawdown = if greater_fraction dd l.max_drawdown then dd else l.max_drawdown;
    }

abbrev pub has : List String → String → Bool
has [] x = false
has (y ∷ ys) x = if str_eq y x then true else has ys x

unfoldable pub seen_signal : Option String → List String → Bool
seen_signal none seen = false
seen_signal (some s) seen = truthy s && has seen s

note_signal : Option String → List String → List String
note_signal none seen = seen
note_signal (some s) seen = if truthy s then seen ++ s ∷ [] else seen

unfoldable pub new_trade : TradeParams → VirtualTrade
new_trade p = record {
  virtual_trade_id = p.virtual_trade_id;
  signal_id = p.signal_id;
  round_id = p.round_id;
  stake = p.stake;
  target = p.target;
  status = opened;
  crash_point = none;
  pnl = none;
}

unfoldable pub enter : TradeParams → VirtualTradeLedger → VirtualTradeLedger
unfolding note_signal
enter p l = update_drawdown (record l {
  trades = set_key p.virtual_trade_id (new_trade p) l.trades;
  by_round =
      set_key p.round_id (or_else (get_key p.round_id l.by_round) [] ++ p.virtual_trade_id ∷ [])
        l.by_round;
  by_signal = note_signal p.signal_id l.by_signal;
  balance = l.balance - amount p.stake;
})

unfoldable pub open_trade :
    TradeParams → VirtualTradeLedger → Option VirtualTrade × VirtualTradeLedger
unfolding seen_signal
open_trade p l =
    if seen_signal p.signal_id l.by_signal
    then (none, l)
    else if ltb l.balance (amount p.stake)
    then (none, l)
    else (some (new_trade p), enter p l)

-- The trade and the ledger behind a resolution, on either side of the target.
unfoldable pub won : ℕ → VirtualTrade → VirtualTrade
won crash t = record t {
  status = win;
  pnl = some (sub_ℕ (t.stake * t.target) (amount t.stake));
  crash_point = some crash;
}

unfoldable pub missed : ℕ → VirtualTrade → VirtualTrade
missed crash t = record t {
  status = loss;
  pnl = some (sub_ℕ 0 (amount t.stake));
  crash_point = some crash;
}

unfoldable pub settle : String → ℕ → VirtualTrade → VirtualTradeLedger → VirtualTradeLedger
settle id crash t l =
    if leb t.target crash
    then update_drawdown (record l {
      trades = set_key id (won crash t) l.trades;
      balance = l.balance + t.stake * t.target;
      wins = l.wins + 1;
      net_pnl = l.net_pnl +ℤ sub_ℕ (t.stake * t.target) (amount t.stake);
    })
    else update_drawdown (record l {
      trades = set_key id (missed crash t) l.trades;
      losses = l.losses + 1;
      net_pnl = l.net_pnl +ℤ sub_ℕ 0 (amount t.stake);
    })

abbrev pub is_open_status : VirtualTradeStatus → Bool
is_open_status opened = true
is_open_status _ = false

unfoldable pub settle_found :
    String → ℕ → Option VirtualTrade → VirtualTradeLedger → VirtualTradeLedger
settle_found id crash none l = l
settle_found id crash (some t) l = if is_open_status t.status then settle id crash t l else l

unfoldable pub settle_all : List String → ℕ → VirtualTradeLedger → VirtualTradeLedger
unfolding settle_found
settle_all [] crash l = l
settle_all (id ∷ ids) crash l = settle_all ids crash (settle_found id crash (get_key id l.trades) l)

unfoldable pub resolve_round : String → ℕ → VirtualTradeLedger → VirtualTradeLedger
unfolding settle_all
resolve_round round crash l = settle_all (or_else (get_key round l.by_round) []) crash l
