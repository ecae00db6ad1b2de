-- ===== src/Capital/Limits.antt =====
-- What src/capital/in-memory-limits.ts allows, and how its lock lasts.
use crash_wave.Prelude.{
  ℕ, ◌+◌, ◌-◌, ◌≤◌, ◌<◌, ◌⊎◌, inl, inr, ◌≡◌, refl, none, true, false, List, [], ◌∷◌, leb, ltb,
  is_some, if◌then◌else◌, arith, if_cases,
}
use crash_wave.Capital.Guard.{
  CapitalLimitsConfig, InMemoryCapitalGuard, share_reached, evaluate, update_balance, can_place_bet,
}

-- Within the limits of a loss: above the floor, and below both drawdowns from the peak.
abbrev pub Within : CapitalLimitsConfig → InMemoryCapitalGuard → Type 0
Within c g =
    (c.panic_balance_floor < g.current_bankroll)
    × (g.peak_bankroll < c.max_drawdown_abs + g.current_bankroll)
    × (share_reached c g ≡ false)

evaluate-Within :
    (c : CapitalLimitsConfig) (g : InMemoryCapitalGuard)
    → g.current_bankroll ≤ g.peak_bankroll
    → ((evaluate c g).locked ≡ true) ⊎ Within c (evaluate c g)
unfolding evaluate
evaluate-Within c g h =
    if_cases (λ (r : InMemoryCapitalGuard). (r.locked ≡ true) ⊎ Within c r)
      (leb g.current_bankroll c.panic_balance_floor) (λ _. inl refl)
      (λ (above : leb g.current_bankroll c.panic_balance_floor ≡ false).
        if_cases (λ (r : InMemoryCapitalGuard). (r.locked ≡ true) ⊎ Within c r)
          (leb c.max_drawdown_abs (g.peak_bankroll - g.current_bankroll)) (λ _. inl refl)
          (λ (small : leb c.max_drawdown_abs (g.peak_bankroll - g.current_bankroll) ≡ false).
            if_cases (λ (r : InMemoryCapitalGuard). (r.locked ≡ true) ⊎ Within c r)
              (share_reached c g) (λ _. inl refl)
              (λ (share : share_reached c g ≡ false). inr (
                above_floor c.panic_balance_floor g.current_bankroll above,
                below_peak c.max_drawdown_abs g.peak_bankroll g.current_bankroll small,
                share,
              ))))
  where
    above_floor : (f b : ℕ) → leb b f ≡ false → f < b
    above_floor f b e = ground arith

    below_peak : (d p b : ℕ) → leb d (p - b) ≡ false → p < d + b
    below_peak d p b e = ground arith

raised : (p b : ℕ) → b ≤ (if ltb p b then b else p)
raised p b = ground arith

update_balance-Within :
    (c : CapitalLimitsConfig) (b : ℕ) (g : InMemoryCapitalGuard)
    → ((update_balance c b g).locked ≡ true) ⊎ Within c (update_balance c b g)
unfolding update_balance
update_balance-Within c b g =
    evaluate-Within c
      (record g {
        current_bankroll = b;
        peak_bankroll = if ltb g.peak_bankroll b then b else g.peak_bankroll;
      })
      (raised g.peak_bankroll b)

-- A bet is allowed: no lock, and the stake fits.
abbrev Fits : CapitalLimitsConfig → ℕ → InMemoryCapitalGuard → Type 0
Fits c stake g =
    (g.locked ≡ false)
    × (stake ≤ c.max_stake)
    × (stake ≤ g.current_bankroll)
    × (c.panic_balance_floor + stake ≤ g.current_bankroll)

can_place_bet-Fits :
    (c : CapitalLimitsConfig) (stake : ℕ) (g : InMemoryCapitalGuard)
    → can_place_bet c stake g ≡ none
    → Fits c stake g
unfolding can_place_bet
can_place_bet-Fits c stake g h = ground arith

-- After a new balance, a bet is allowed only when the balance is above the floor and below both
-- drawdowns from the peak, the stake is at most the greatest one, and the floor is left untouched
-- when the stake is lost.
pub can_place_bet-update_balance :
    (c : CapitalLimitsConfig) (stake b : ℕ) (g : InMemoryCapitalGuard)
    → can_place_bet c stake (update_balance c b g) ≡ none
    → Within c (update_balance c b g)
      × (stake ≤ c.max_stake)
      × (c.panic_balance_floor + stake ≤ (update_balance c b g).current_bankroll)
can_place_bet-update_balance c stake b g h =
    let f = can_place_bet-Fits c stake (update_balance c b g) h in
    (pick (update_balance-Within c b g) f.0, f.1, f.3)
  where
    pick :
        ((update_balance c b g).locked ≡ true) ⊎ Within c (update_balance c b g)
        → (update_balance c b g).locked ≡ false
        → Within c (update_balance c b g)
    pick (inl e) f = cc
    pick (inr w) f = w

abbrev pub update_all : CapitalLimitsConfig → List ℕ → InMemoryCapitalGuard → InMemoryCapitalGuard
update_all c [] g = g
update_all c (b ∷ bs) g = update_all c bs (update_balance c b g)

update_keeps_lock :
    (c : CapitalLimitsConfig) (b : ℕ) (g : InMemoryCapitalGuard)
    → g.locked ≡ true
    → (update_balance c b g).locked ≡ true
unfolding update_balance evaluate
update_keeps_lock c b g h = ground arith

locked_refuses :
    (c : CapitalLimitsConfig) (stake : ℕ) (g : InMemoryCapitalGuard)
    → g.locked ≡ true
    → is_some (can_place_bet c stake g) ≡ true
unfolding can_place_bet
locked_refuses c stake g h = ground arith

-- A lock lasts: whatever balances come in, and however high, a locked guard refuses every stake
-- until the operator unlocks it.
pub update_all-refuses :
    (c : CapitalLimitsConfig) (bs : List ℕ) (stake : ℕ) (g : InMemoryCapitalGuard)
    → g.locked ≡ true
    → is_some (can_place_bet c stake (update_all c bs g)) ≡ true
update_all-refuses c [] stake g h = locked_refuses c stake g h
update_all-refuses c (b ∷ bs) stake g h =
    update_all-refuses c bs stake (update_balance c b g) (update_keeps_lock c b g h)
