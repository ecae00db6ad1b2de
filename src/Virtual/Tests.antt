-- ===== src/Virtual/Tests.antt =====
-- A run of the simulated trades, and the theorem at it.
use crash_wave.Prelude.{◌≡◌, refl, some, List, [], ◌∷◌, get_key, set_key}
use crash_wave.Prelude.Int.{pos, ◌+ℤ◌}
use crash_wave.Virtual.Ledger.{
  TradeParams, new_ledger, open_trade, resolve_round, enter, settle, update_drawdown, new_trade,
  won,
}
use crash_wave.Virtual.Books.{
  LedgerCall, open_call, resolve_call, run_calls, NewNames, Books, run_calls-Books,
}

abbrev trade : TradeParams
trade = record {
  virtual_trade_id = "v1";
  signal_id = some "s1";
  round_id = "r1";
  stake = 700;
  target = 130;
}

abbrev calls : List LedgerCall
calls =
    open_call trade
    ∷ open_call (record trade { virtual_trade_id = "v2" })
    ∷ resolve_call "r1" 150
    ∷ resolve_call "r1" 110
    ∷ []

-- The second trade has the signal of the first, and the second crash finds no open trade: 7.00 at
-- 1.30 brings 2.10 once.
one_win : (run_calls calls (new_ledger 1000000)).net_pnl ≡ pos 21000
unfolding open_trade resolve_round enter settle update_drawdown new_trade won get_key set_key ◌+ℤ◌
one_win = refl

names_new : NewNames calls (new_ledger 1000000)
unfolding open_trade resolve_round enter settle update_drawdown new_trade won get_key set_key
names_new = (refl, (refl, tt))

run_calls-Books_example : Books (run_calls calls (new_ledger 1000000))
run_calls-Books_example = run_calls-Books calls (new_ledger 1000000) names_new (refl, refl)
