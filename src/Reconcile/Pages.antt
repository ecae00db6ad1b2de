-- ===== src/Reconcile/Pages.antt =====
-- computeExpectedBalance of src/ledger/balance-reconciliation.ts. Amounts are integers in
-- hundredths, so that its rounding to hundredths changes nothing.
use mathlib.Core.Option.{map}
use crash_wave.Prelude.{
  ℕ, zero, suc, ◌+◌, Option, none, some, List, [], ◌∷◌, length, ltb, or_else, if◌then◌else◌,
}
use crash_wave.Prelude.Int.{ℤ, pos, ◌+ℤ◌}
use crash_wave.Betting.Types.{
  BetState, cashed_out, lost, failed, reconciled, Outcome, returned, threw,
}
use crash_wave.Bets.Types.{BetRecord}

pub record Sums : Type 0 where
  pub total_pnl : ℤ
  pub baseline_balance : Option ℤ

abbrev pub no_sums : Sums
no_sums = record { total_pnl = pos 0; baseline_balance = none }

-- `baselineBalance === null && bet.balanceBefore !== null`.
abbrev pub first_known : Option ℤ → Option ℤ → Option ℤ
first_known none b = b
first_known (some a) b = some a

abbrev pub add_known : Option ℤ → ℤ → ℤ
add_known none t = t
add_known (some p) t = t +ℤ p

abbrev pub add_bet : BetRecord → Sums → Sums
add_bet bet s = record {
  total_pnl = add_known bet.pnl s.total_pnl;
  baseline_balance = first_known s.baseline_balance bet.balance_before;
}

abbrev pub add_bets : List BetRecord → Sums → Sums
add_bets [] s = s
add_bets (b ∷ bs) s = add_bets bs (add_bet b s)

-- `findByStatePaged` by limit and offset; for a repository without it, `findByState`, which does not
-- look at the offset.
abbrev pub Pager : Type 0
Pager = BetState → ℕ → ℕ → Outcome (List BetRecord)

abbrev pub page_size : ℕ
page_size = 1000

-- The offset of the safety stop.
abbrev pub last_offset : ℕ
last_offset = 1000000

-- The body of the paging loop, after the page is read; `next` is the rest of the loop.
unfoldable pub scan_page :
    ℕ
    → ℕ
    → ℕ
    → Sums
    → (ℕ → Sums → Option (Outcome Sums))
    → Outcome (List BetRecord)
    → Option (Outcome Sums)
scan_page size stop offset s next (threw m) = some (threw m)
scan_page size stop offset s next (returned []) = some (returned s)
scan_page size stop offset s next (returned (b ∷ bs)) =
    let sum = add_bets (b ∷ bs) s in
    if ltb (length (b ∷ bs)) size
    then some (returned sum)
    else if ltb stop (offset + size)
    then some (returned sum)
    else next (offset + size) sum

-- The loop of one state, on fuel: `none` when the fuel is used up.
unfoldable pub scan :
    (ℕ → ℕ → Outcome (List BetRecord)) → ℕ → ℕ → ℕ → ℕ → Sums → Option (Outcome Sums)
unfolding scan_page
scan page size stop zero offset s = none
scan page size stop (suc n) offset s =
    scan_page size stop offset s (λ o t. scan page size stop n o t) (page size offset)

-- The pages up to the safety stop.
abbrev pub page_fuel : ℕ
page_fuel = 1001

abbrev pub after : (Sums → Option (Outcome Sums)) → Option (Outcome Sums) → Option (Outcome Sums)
after f none = none
after f (some (threw m)) = some (threw m)
after f (some (returned s)) = f s

unfoldable pub scan_all : Pager → List BetState → Sums → Option (Outcome Sums)
unfolding scan
scan_all page [] s = some (returned s)
scan_all page (st ∷ sts) s =
    after (λ t. scan_all page sts t) (scan (page st) page_size last_offset page_fuel zero s)

abbrev pub settled_states : List BetState
settled_states = cashed_out ∷ lost ∷ failed ∷ reconciled ∷ []

-- The row of the aggregate query; a baseline that is no finite number is `none`.
pub record Aggregate : Type 0 where
  pub baseline : Option ℤ
  pub aggregate_pnl : Option ℤ

-- What the repository offers: a pool that the query runs on, or pages.
pub data Source : Type 0 where
  pooled : Outcome (Option Aggregate) → Source
  paged : Pager → Source

abbrev pub balance_of : Option ℤ → Option ℤ → ℤ → ℤ
balance_of current none total = or_else current (pos 0)
balance_of current (some b) total = b +ℤ total

abbrev pub balance_from : Option ℤ → Sums → ℤ
balance_from current s = balance_of current s.baseline_balance s.total_pnl

abbrev pub sums_of : Option Aggregate → Sums
sums_of none = no_sums
sums_of (some a) = record {
  total_pnl = or_else a.aggregate_pnl (pos 0);
  baseline_balance = a.baseline;
}

abbrev pub expected_from : Option ℤ → Outcome Sums → Outcome ℤ
expected_from current (threw m) = threw m
expected_from current (returned s) = returned (balance_from current s)

-- `current` is the tracker's balance.
unfoldable pub compute_expected_balance : Source → Option ℤ → Option (Outcome ℤ)
unfolding scan_all
compute_expected_balance (pooled (threw m)) current = some (threw m)
compute_expected_balance (pooled (returned row)) current =
    some (returned (balance_from current (sums_of row)))
compute_expected_balance (paged page) current =
    map (expected_from current) (scan_all page settled_states no_sums)
