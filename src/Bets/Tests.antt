-- ===== src/Bets/Tests.antt =====
-- Runs of InMemoryBetRepository, and each theorem at an input of its own.
use text.Mathlib.Text.{◌==◌ as str_eq}
use crash_wave.Prelude.{
  ◌≡◌, refl, ◌+◌, String, none, some, List, [], ◌∷◌, if◌then◌else◌, get_key, set_key,
}
use crash_wave.Prelude.Decimal.{decimal}
use crash_wave.Prelude.Int.{pos, negsuc}
use crash_wave.Betting.Types.{lost}
use crash_wave.Bets.Types.{CreateBetInput, UpdateBetInput}
use crash_wave.Bets.Memory.{
  InMemoryBetRepository, no_bets, no_change, create, update, find_by_id, count, bet_name, new_bet,
  delete,
}
use crash_wave.Bets.Lookup.{WrittenAt, create-find_by_id, update-find_by_id}
use crash_wave.Bets.Calls.{
  BetCall, create_call, update_call, delete_call, run_calls, run_calls-Numbered, SameTerms,
  run_calls-SameTerms,
}
use crash_wave.Bets.Stats.{Consistent, get_daily_stats, get_daily_stats-Consistent}

abbrev input : CreateBetInput
input = record {
  session_id = some "s1";
  round_id = some "r1";
  daily_key = "2026-01-05";
  stake = 700;
  cash_out_target = 130;
  state = none;
  balance_before = some (pos 10000);
}

abbrev losing : UpdateBetInput
losing = record no_change { state = some lost; pnl = some (some (negsuc 699)) }

abbrev calls : List BetCall
calls =
    create_call input 5
    ∷ create_call input 6
    ∷ update_call "bet-1" losing
    ∷ delete_call "bet-2"
    ∷ []

abbrev two : InMemoryBetRepository
two = run_calls (create_call input 5 ∷ create_call input 6 ∷ []) no_bets

-- The first bet takes the first name.
first_name : find_by_id "bet-1" two ≡ some (new_bet "bet-1" input 5)
unfolding create find_by_id new_bet bet_name decimal get_key set_key
first_name = refl

-- A deleted name is not given out again.
third_name : (create input 7 (run_calls calls no_bets)).0.id ≡ "bet-3"
unfolding create update delete bet_name decimal new_bet get_key set_key
third_name = refl

create-find_by_id_example :
    (find_by_id (create input 7 two).0.id two ≡ none)
    × ((j : String)
        → find_by_id j (create input 7 two).1 ≡ (
            if str_eq (create input 7 two).0.id j
            then some (create input 7 two).0
            else find_by_id j two))
    × (count (create input 7 two).1 ≡ count two + 1)
create-find_by_id_example =
    create-find_by_id input 7 two
      (run_calls-Numbered (create_call input 5 ∷ create_call input 6 ∷ []) no_bets tt)

update-find_by_id_example :
    WrittenAt "bet-1" losing (find_by_id "bet-1" two) (update "bet-1" losing two) two
update-find_by_id_example = update-find_by_id "bet-1" losing two

first_terms : SameTerms (new_bet "bet-1" input 5) (find_by_id "bet-1" two)
unfolding create find_by_id new_bet bet_name decimal get_key set_key
first_terms = (refl, refl, refl, refl, refl)

run_calls-SameTerms_example :
    SameTerms
      (new_bet "bet-1" input 5)
      (find_by_id "bet-1" (run_calls (update_call "bet-1" losing ∷ delete_call "bet-2" ∷ []) two))
run_calls-SameTerms_example =
    run_calls-SameTerms (update_call "bet-1" losing ∷ delete_call "bet-2" ∷ []) "bet-1" two
      (new_bet "bet-1" input 5)
      (run_calls-Numbered (create_call input 5 ∷ create_call input 6 ∷ []) no_bets tt) refl
      first_terms

get_daily_stats-Consistent_example :
    Consistent (get_daily_stats "2026-01-05" (update "bet-1" losing two).1)
get_daily_stats-Consistent_example =
    get_daily_stats-Consistent "2026-01-05" (update "bet-1" losing two).1
