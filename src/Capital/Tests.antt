-- ===== src/Capital/Tests.antt =====
-- A guard at work, and each theorem at an input of its own.
use crash_wave.Prelude.{◌≡◌, refl, ◌+◌, ◌≤◌, none, true, [], ◌∷◌, is_some}
use crash_wave.Capital.Guard.{
  CapitalLimitsConfig, InMemoryCapitalGuard, new_guard, update_balance, can_place_bet, unlock,
}
use crash_wave.Capital.Limits.{Within, can_place_bet-update_balance, update_all, update_all-refuses}

abbrev config : CapitalLimitsConfig
config = record {
  max_drawdown_abs = 3000;
  max_drawdown_pct = 4000;
  panic_balance_floor = 2000;
  max_stake = 700;
  starting_bankroll = 10000;
}

abbrev start : InMemoryCapitalGuard
start = new_guard config

allows : can_place_bet config 700 (update_balance config 9000 start) ≡ none
unfolding can_place_bet update_balance
allows = refl

-- An unlock is an override: the drawdown is still reached, and the bet is allowed.
override_allows : can_place_bet config 700 (unlock (update_balance config 6000 start)) ≡ none
unfolding can_place_bet update_balance unlock
override_allows = refl

allowed_example :
    Within config (update_balance config 9000 start)
    × (700 ≤ config.max_stake)
    × (config.panic_balance_floor + 700 ≤ (update_balance config 9000 start).current_bankroll)
allowed_example = can_place_bet-update_balance config 700 9000 start allows

locks : (update_balance config 6000 start).locked ≡ true
unfolding update_balance
locks = refl

refuses_example :
    is_some (
      can_place_bet config 1
        (update_all config (9000 ∷ 20000 ∷ []) (update_balance config 6000 start)))
    ≡ true
refuses_example =
    update_all-refuses config (9000 ∷ 20000 ∷ []) 1 (update_balance config 6000 start) locks
