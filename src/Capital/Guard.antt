-- ===== src/Capital/Guard.antt =====
-- src/capital/in-memory-limits.ts. Amounts are natural numbers, and the greatest share of a loss is
-- in ten-thousandths; the text of a reason is a constructor.
use crash_wave.Prelude.{
  ℕ, ◌-◌, ◌*◌, Option, none, some, Bool, true, false, leb, ltb, or_else, if◌then◌else◌,
}

pub data Reason : Type 0 where
  panic_floor max_drawdown_abs max_drawdown_pct capital_locked : Reason
  stake_exceeds_max insufficient_balance would_breach_panic_floor : Reason

pub record CapitalLimitsConfig : Type 0 where
  pub max_drawdown_abs : ℕ
  pub max_drawdown_pct : ℕ
  pub panic_balance_floor : ℕ
  pub max_stake : ℕ
  pub starting_bankroll : ℕ

pub record InMemoryCapitalGuard : Type 0 where
  pub peak_bankroll : ℕ
  pub current_bankroll : ℕ
  pub locked : Bool
  pub lock_reason : Option Reason

abbrev pub new_guard : CapitalLimitsConfig → InMemoryCapitalGuard
new_guard c = record {
  peak_bankroll = c.starting_bankroll;
  current_bankroll = c.starting_bankroll;
  locked = false;
  lock_reason = none;
}

abbrev pub lock : Reason → InMemoryCapitalGuard → InMemoryCapitalGuard
lock why g = record g { locked = true; lock_reason = some why }

-- `drawdownPct >= maxDrawdownPct`, where the share of an empty peak is 0.
abbrev pub share_reached : CapitalLimitsConfig → InMemoryCapitalGuard → Bool
share_reached c g =
    if ltb 0 g.peak_bankroll
    then leb (c.max_drawdown_pct * g.peak_bankroll) ((g.peak_bankroll - g.current_bankroll) * 10000)
    else leb c.max_drawdown_pct 0

unfoldable pub evaluate : CapitalLimitsConfig → InMemoryCapitalGuard → InMemoryCapitalGuard
evaluate c g =
    if leb g.current_bankroll c.panic_balance_floor
    then lock panic_floor g
    else if leb c.max_drawdown_abs (g.peak_bankroll - g.current_bankroll)
    then lock max_drawdown_abs g
    else if share_reached c g
    then lock max_drawdown_pct g
    else g

unfoldable pub update_balance :
    CapitalLimitsConfig → ℕ → InMemoryCapitalGuard → InMemoryCapitalGuard
unfolding evaluate
update_balance c balance g = evaluate c (record g {
  current_bankroll = balance;
  peak_bankroll = if ltb g.peak_bankroll balance then balance else g.peak_bankroll;
})

-- Whether a bet is allowed, or why not.
unfoldable pub can_place_bet : CapitalLimitsConfig → ℕ → InMemoryCapitalGuard → Option Reason
can_place_bet c stake g =
    if g.locked
    then some (or_else g.lock_reason capital_locked)
    else if ltb c.max_stake stake
    then some stake_exceeds_max
    else if ltb g.current_bankroll stake
    then some insufficient_balance
    else if ltb (g.current_bankroll - stake) c.panic_balance_floor
    then some would_breach_panic_floor
    else none

unfoldable pub unlock : InMemoryCapitalGuard → InMemoryCapitalGuard
unlock g = record g { locked = false; lock_reason = none }
