-- ===== src/Bets/Stats.antt =====
-- getDailyStats of InMemoryBetRepository in src/persistence/repositories/bet-repo.ts.
use crash_wave.Prelude.{
  ◌+◌, ◌≡◌, refl, String, Option, none, some, Bool, true, false, ◌||◌, List, [], ◌∷◌, length,
  select, head?, or_else, arith, ◌≤◌, if◌then◌else◌,
}
use crash_wave.Prelude.Int.{ℤ, pos, ◌+ℤ◌, ltb_ℤ, int_laws}
use crash_wave.Betting.Types.{BetState, reserved, cashed_out, lost, reconciled}
use crash_wave.Bets.Types.{BetRecord, DailyStats, is_state}
use crash_wave.Bets.Memory.{InMemoryBetRepository, in_state, find_by_daily_key}

abbrev pub pnl_of : BetRecord → ℤ
pnl_of b = or_else b.pnl (pos 0)

abbrev pub sum_pnl : List BetRecord → ℤ
sum_pnl [] = pos 0
sum_pnl (b ∷ bs) = pnl_of b +ℤ sum_pnl bs

is_win : BetRecord → Bool
is_win b = in_state cashed_out b || in_state reconciled b

gains : BetRecord → Bool
gains b = ltb_ℤ (pos 0) (pnl_of b)

loses : BetRecord → Bool
loses b = ltb_ℤ (pnl_of b) (pos 0)

last? : List BetRecord → Option BetRecord
last? [] = none
last? (b ∷ []) = some b
last? (b ∷ c ∷ bs) = last? (c ∷ bs)

start_of : Option BetRecord → Option ℤ
start_of none = none
start_of (some b) = b.balance_before

end_of : Option BetRecord → Option ℤ
end_of none = none
end_of (some b) = b.balance_after

stats_of : String → List BetRecord → DailyStats
unfolding is_win gains loses start_of end_of last?
stats_of key bs =
    let wins = length (select is_win bs) in
    let losses = length (select (in_state lost) bs) in
    record {
      daily_key = key;
      entries_confirmed = wins + losses;
      entries_attempted = length bs;
      entries_failed = length (select (in_state BetState.failed) bs);
      entries_reserved = length (select (in_state reserved) bs);
      entries_remaining = 0;
      total_bets = length bs;
      wins = wins;
      losses = losses;
      consecutive_losses = 0;
      gross_profit = sum_pnl (select gains bs);
      gross_loss = sum_pnl (select loses bs);
      net_pnl = sum_pnl bs;
      balance_start = start_of (head? bs);
      balance_end = end_of (last? bs);
      max_drawdown = 0;
      current_drawdown = 0;
      hit_rate = some (wins, length bs);
    }

stats_unless_empty : String → List BetRecord → Option DailyStats
unfolding stats_of
stats_unless_empty key [] = none
stats_unless_empty key (b ∷ bs) = some (stats_of key (b ∷ bs))

pub get_daily_stats : String → InMemoryBetRepository → Option DailyStats
unfolding stats_unless_empty
get_daily_stats key r = stats_unless_empty key (find_by_daily_key key r)

abbrev part : Bool → ℤ → ℤ
part t x = if t then x else pos 0

sum_pnl-if :
    (t : Bool) (b : BetRecord) (bs : List BetRecord)
    → sum_pnl (if t then b ∷ bs else bs) ≡ part t (pnl_of b) +ℤ sum_pnl bs
sum_pnl-if true b bs = refl
sum_pnl-if false b bs = omega int_laws

split_parts : (x : ℤ) → x ≡ part (ltb_ℤ (pos 0) x) x +ℤ part (ltb_ℤ x (pos 0)) x
unfolding ◌+ℤ◌
split_parts x = ground arith

regroup : (x p q g l s : ℤ) → x ≡ p +ℤ q → s ≡ g +ℤ l → x +ℤ s ≡ p +ℤ g +ℤ (q +ℤ l)
regroup x p q g l s e f = rw (e, f) (omega int_laws)

split_sum :
    (bs : List BetRecord) → sum_pnl bs ≡ sum_pnl (select gains bs) +ℤ sum_pnl (select loses bs)
unfolding gains loses
split_sum [] = omega int_laws
split_sum (b ∷ bs) =
    rw (sum_pnl-if (gains b) b (select gains bs), sum_pnl-if (loses b) b (select loses bs))
      (regroup (pnl_of b) (part (gains b) (pnl_of b)) (part (loses b) (pnl_of b))
        (sum_pnl (select gains bs)) (sum_pnl (select loses bs)) (sum_pnl bs)
        (split_parts (pnl_of b)) (split_sum bs))

won_not_lost :
    (s : BetState)
    → (is_state s cashed_out || is_state s reconciled) ≡ true
    → is_state s lost ≡ false
unfolding is_state
won_not_lost lost h = cc
won_not_lost _ h = refl

wins_and_losses :
    (bs : List BetRecord)
    → length (select is_win bs) + length (select (in_state lost) bs) ≤ length bs
unfolding is_win
wins_and_losses [] = omega arith
wins_and_losses (b ∷ bs) = ground (arith, won_not_lost b.state, wins_and_losses bs)

abbrev pub Consistent : Option DailyStats → Type 0
Consistent none = Unit
Consistent (some s) =
    (s.net_pnl ≡ s.gross_profit +ℤ s.gross_loss)
    × (s.entries_confirmed ≡ s.wins + s.losses)
    × (s.entries_confirmed ≤ s.total_bets)

stats_unless_empty-Consistent :
    (key : String) (bs : List BetRecord) → Consistent (stats_unless_empty key bs)
unfolding stats_unless_empty
stats_unless_empty-Consistent key [] = tt
stats_unless_empty-Consistent key (b ∷ bs) = (split_sum (b ∷ bs), refl, wins_and_losses (b ∷ bs))

-- The statistics of a day: the net result is the sum of the gross profit and the gross loss, the
-- confirmed entries are the wins and the losses, and there are no more of them than bets.
pub get_daily_stats-Consistent :
    (key : String) (r : InMemoryBetRepository) → Consistent (get_daily_stats key r)
unfolding get_daily_stats
get_daily_stats-Consistent key r = stats_unless_empty-Consistent key (find_by_daily_key key r)
