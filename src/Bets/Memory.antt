-- ===== src/Bets/Memory.antt =====
-- InMemoryBetRepository of src/persistence/repositories/bet-repo.ts.
use Prim.Native.String.{compare as compare_text, ◌++◌ as ◌<>◌}
use Prim.Native.Nat.{Ordering}
use text.Mathlib.Text.{◌==◌ as str_eq}
use crash_wave.Prelude.{
  ℕ, ◌+◌, String, Option, none, some, Bool, true, false, ◌||◌, List, [], ◌∷◌, length, select, take,
  drop, head?, or_else, is_some, get_key, set_key, delete_key, ltb, ◌==◌, if◌then◌else◌,
}
use crash_wave.Prelude.Decimal.{decimal}
use crash_wave.Betting.Types.{BetState, reserved, placed, confirmed, active, cash_out_requested}
use crash_wave.Bets.Types.{BetRecord, CreateBetInput, UpdateBetInput, is_state}

abbrev pub Table : Type 0
Table = List (String × BetRecord)

pub record InMemoryBetRepository : Type 0 where
  pub bets : Table
  pub next_id : ℕ

abbrev pub no_bets : InMemoryBetRepository
no_bets = record { bets = []; next_id = 1 }

unfoldable pub bet_name : ℕ → String
unfolding decimal
bet_name n = "bet-" <> decimal n

abbrev pub values : Table → List BetRecord
values [] = []
values ((k, b) ∷ m) = b ∷ values m

unfoldable pub new_bet : String → CreateBetInput → ℕ → BetRecord
new_bet id input now = record {
  id = id;
  session_id = input.session_id;
  round_id = input.round_id;
  daily_key = input.daily_key;
  stake = input.stake;
  cash_out_target = input.cash_out_target;
  state = or_else input.state reserved;
  requested_at = none;
  placed_at = none;
  confirmed_at = none;
  cash_out_requested_at = none;
  cash_out_confirmed_at = none;
  observed_cash_out_multiplier = none;
  confirmed_cash_out_multiplier = none;
  pnl = none;
  balance_before = input.balance_before;
  balance_after = none;
  failure_reason = none;
  created_at = now;
}

unfoldable pub create :
    CreateBetInput → ℕ → InMemoryBetRepository → BetRecord × InMemoryBetRepository
create input now r =
    let b = new_bet (bet_name r.next_id) input now in
    (b, record { bets = set_key b.id b r.bets; next_id = r.next_id + 1 })

unfoldable pub find_by_id : String → InMemoryBetRepository → Option BetRecord
find_by_id id r = get_key id r.bets

is_round : String → BetRecord → Bool
is_round id b = elim b.round_id [ none ↦ false | some x ↦ str_eq x id ]

is_session : String → BetRecord → Bool
is_session id b = elim b.session_id [ none ↦ false | some x ↦ str_eq x id ]

is_day : String → BetRecord → Bool
is_day key b = str_eq b.daily_key key

unfoldable pub find_by_round_id : String → InMemoryBetRepository → Option BetRecord
unfolding is_round
find_by_round_id id r = head? (select (is_round id) (values r.bets))

unfoldable pub find_by_session_id : String → InMemoryBetRepository → List BetRecord
unfolding is_session
find_by_session_id id r = select (is_session id) (values r.bets)

unfoldable pub find_by_daily_key : String → InMemoryBetRepository → List BetRecord
unfolding is_day
find_by_daily_key key r = select (is_day key) (values r.bets)

abbrev pub in_state : BetState → BetRecord → Bool
in_state s b = is_state b.state s

unfoldable pub find_by_state : BetState → ℕ → InMemoryBetRepository → List BetRecord
find_by_state s limit r = take limit (select (in_state s) (values r.bets))

-- The comparison that `findByStatePaged` sorts by: whether `a` may stand before `b`.
unfoldable pub not_after : BetRecord → BetRecord → Bool
not_after a b =
    if a.created_at == b.created_at
    then elim (compare_text a.id b.id) [ Ordering.gt ↦ false | _ ↦ true ]
    else ltb a.created_at b.created_at

unfoldable pub insert_sorted : BetRecord → List BetRecord → List BetRecord
insert_sorted b [] = b ∷ []
insert_sorted b (c ∷ cs) =
    let rest = insert_sorted b cs in if not_after b c then b ∷ c ∷ cs else c ∷ rest

-- `Array.sort`, which is stable.
unfoldable pub sort_bets : List BetRecord → List BetRecord
sort_bets [] = []
sort_bets (b ∷ bs) = insert_sorted b (sort_bets bs)

unfoldable pub find_by_state_paged : BetState → ℕ → ℕ → InMemoryBetRepository → List BetRecord
find_by_state_paged s limit offset r =
    take limit (drop offset (sort_bets (select (in_state s) (values r.bets))))

unfoldable pub is_active : BetRecord → Bool
is_active b =
    in_state placed b
    || (in_state confirmed b || (in_state active b || in_state cash_out_requested b))

unfoldable pub find_active_bets : InMemoryBetRepository → List BetRecord
unfolding is_active
find_active_bets r = select is_active (values r.bets)

abbrev pub find_unknown_bets : ℕ → InMemoryBetRepository → List BetRecord
find_unknown_bets = find_by_state BetState.unknown

unfoldable pub updated : UpdateBetInput → BetRecord → BetRecord
updated input b = record {
  id = b.id;
  session_id = or_else input.session_id b.session_id;
  round_id = or_else input.round_id b.round_id;
  daily_key = b.daily_key;
  stake = b.stake;
  cash_out_target = b.cash_out_target;
  state = or_else input.state b.state;
  requested_at = or_else input.requested_at b.requested_at;
  placed_at = or_else input.placed_at b.placed_at;
  confirmed_at = or_else input.confirmed_at b.confirmed_at;
  cash_out_requested_at = or_else input.cash_out_requested_at b.cash_out_requested_at;
  cash_out_confirmed_at = or_else input.cash_out_confirmed_at b.cash_out_confirmed_at;
  observed_cash_out_multiplier =
      or_else input.observed_cash_out_multiplier b.observed_cash_out_multiplier;
  confirmed_cash_out_multiplier =
      or_else input.confirmed_cash_out_multiplier b.confirmed_cash_out_multiplier;
  pnl = or_else input.pnl b.pnl;
  balance_before = or_else input.balance_before b.balance_before;
  balance_after = or_else input.balance_after b.balance_after;
  failure_reason = or_else input.failure_reason b.failure_reason;
  created_at = b.created_at;
}

unfoldable pub write_found :
    String
    → UpdateBetInput
    → Option BetRecord
    → InMemoryBetRepository
    → Option BetRecord × InMemoryBetRepository
unfolding updated
write_found id input none r = (none, r)
write_found id input (some b) r =
    let c = updated input b in (some c, record r { bets = set_key id c r.bets })

unfoldable pub update :
    String → UpdateBetInput → InMemoryBetRepository → Option BetRecord × InMemoryBetRepository
unfolding write_found
update id input r = write_found id input (get_key id r.bets) r

abbrev pub no_change : UpdateBetInput
no_change = record {
  session_id = none;
  round_id = none;
  state = none;
  requested_at = none;
  placed_at = none;
  confirmed_at = none;
  cash_out_requested_at = none;
  cash_out_confirmed_at = none;
  observed_cash_out_multiplier = none;
  confirmed_cash_out_multiplier = none;
  pnl = none;
  balance_before = none;
  balance_after = none;
  failure_reason = none;
}

abbrev pub reason_given : Option String → Option (Option String)
reason_given none = none
reason_given (some s) = some (some s)

-- What `updateState` passes to `update`: a reason that is left out stays undefined.
abbrev pub state_change : BetState → Option String → UpdateBetInput
state_change s reason = record no_change { state = some s; failure_reason = reason_given reason }

-- `delete` returns whether the key was there.
unfoldable pub delete : String → InMemoryBetRepository → Bool × InMemoryBetRepository
delete id r = (is_some (get_key id r.bets), record r { bets = delete_key id r.bets })

unfoldable pub count : InMemoryBetRepository → ℕ
count r = length r.bets

unfoldable pub count_by_state : BetState → InMemoryBetRepository → ℕ
count_by_state s r = length (select (in_state s) (values r.bets))

unfoldable pub count_by_daily_key : String → InMemoryBetRepository → ℕ
unfolding is_day
count_by_daily_key key r = length (select (is_day key) (values r.bets))
