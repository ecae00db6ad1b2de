-- ===== src/Betting/Tests.antt =====
-- Placements over both stores, and each theorem at an input of its own.
use crash_wave.Prelude.{
  ◌≤◌, ◌≡◌, refl, true, false, none, some, [], ◌∷◌, get_key, set_key, ltb, length, arith,
}
use crash_wave.Betting.Types.{PlaceBetRequest, returned, threw, BetPlacementAdapter}
use crash_wave.Betting.Idempotency.{
  Records, TimedRecords, sweep, cleanup, generate_key, reserve_key, mark_found,
}
use crash_wave.Betting.Executor.{completed, BetExecutor, World, place_bet, says_timed_out}
use crash_wave.Betting.Attempts.{submissions, place_bet-submissions}
use crash_wave.Betting.Once.{bets_landed, place_bet-landed}
use crash_wave.Betting.Outcomes.{ResultTold, place_bet-told}
use crash_wave.Betting.Keys.{executor, timed_executor, place_all, duplicate, place_bet-once}
use crash_wave.Betting.Statuses.{status_in, status_of, place_bet-status}
use crash_wave.Betting.RedisStore.{RedisClient}
use crash_wave.Betting.FailSafe.{redis_executor, place_bet-blocked}
use crash_wave.Betting.Resubmits.{place_bet-timeout}

abbrev bet : PlaceBetRequest
bet = record {
  bet_id = "b1";
  round_id = "r1";
  session_id = "s1";
  stake = 700;
  target = 130;
  idempotency_key = "s1:r1";
  dry_run = false;
}

-- The first submission is rejected, the second accepted and confirmed.
abbrev slow : BetPlacementAdapter
slow = record {
  submit_bet = λ r n. returned (ltb 0 n);
  wait_for_confirmation = λ b n. returned true;
}

-- Every submission is accepted, and no confirmation comes in time.
abbrev silent : BetPlacementAdapter
silent = record {
  submit_bet = λ r n. returned true;
  wait_for_confirmation = λ b n. threw "Bet confirmation timed out";
}

abbrev start : World Records
start = record { store = []; calls = [] }

abbrev x : BetPlacementAdapter → BetExecutor Records
x a = executor 5 a 2

timeouts : says_timed_out "Request Timed Out!" ≡ true
unfolding says_timed_out
timeouts = refl

others : says_timed_out "socket hang up" ≡ false
unfolding says_timed_out
others = refl

confirmed_run : (place_bet (x slow) bet start).0.is_placed ≡ true
unfolding place_bet reserve_key get_key mark_found set_key completed
confirmed_run = refl

submissions_example : submissions (place_bet (x silent) bet start).1.calls ≤ 3
submissions_example = place_bet-submissions (x silent) bet start

landed_example : bets_landed slow bet (place_bet (x slow) bet start).1.calls ≤ 1
landed_example = place_bet-landed (x slow) bet (λ n. refl) (λ s. refl) start

told_example : ResultTold (x slow) bet (place_bet (x slow) bet start).0.state
told_example = place_bet-told (x slow) bet start refl

-- The timer fires before the second call of the store, and when the record is about to expire.
abbrev timed_start : World TimedRecords
timed_start = record { store = ([], [] ∷ (60000 ∷ []) ∷ (120000 ∷ 300005 ∷ []) ∷ []); calls = [] }

abbrev later : World TimedRecords
later =
    place_all slow 2 ((120000, bet) ∷ []) (place_bet (timed_executor slow 2 5) bet timed_start).1

once_example :
    place_bet (timed_executor slow 2 300005) bet later
    ≡ (duplicate, record later { store = sweep later.store })
unfolding get_key
once_example =
    place_bet-once slow 2 5 bet ((120000, bet) ∷ []) 300005 bet timed_start refl
      (tt, ((omega arith, tt), ((omega arith, (omega arith, tt)), tt))) refl refl

-- The first cleanup behind the expiry frees the round.
freed : length (cleanup 300006 (place_bet (x slow) bet start).1.store) ≡ 0
unfolding place_bet reserve_key get_key mark_found set_key completed cleanup generate_key
freed = refl

status_example :
    status_in "s1" "r1" (place_bet (x silent) bet start).1.store
    ≡ some (status_of (place_bet (x silent) bet start).0.state)
unfolding get_key
status_example = place_bet-status 5 silent 2 bet start refl

timeout_example : bets_landed silent bet (place_bet (x silent) bet start).1.calls ≡ 3
unfolding says_timed_out reserve_key get_key
timeout_example =
    place_bet-timeout (x silent) bet "Bet confirmation timed out" (λ n. refl) (λ n. refl) refl start
      refl refl

-- A Redis that cannot be reached.
abbrev unreachable : RedisClient (World Records)
unreachable = record {
  set_nx = λ k v ttl m. (threw "ECONNREFUSED", m);
  get = λ k m. (threw "ECONNREFUSED", m);
  set = λ k v ttl m. (threw "ECONNREFUSED", m);
  del = λ k m. (threw "ECONNREFUSED", m);
}

abbrev cut_off : World (World Records)
cut_off = record { store = start; calls = [] }

blocked_example :
    ((place_bet (redis_executor unreachable none 300000 slow 2) bet cut_off).0 ≡ duplicate)
    × ((place_bet (redis_executor unreachable none 300000 slow 2) bet cut_off).1.calls ≡ [])
blocked_example = place_bet-blocked unreachable none 300000 slow 2 bet cut_off refl
