-- ===== src/Reconcile/Paging.antt =====
-- What the paging of src/ledger/balance-reconciliation.ts adds up.

use mathlib.Core.Option.{map}
use crash_wave.Prelude.{
  ℕ, zero, suc, ◌+◌, ◌*◌, ◌≤◌, ◌<◌, ◌≡◌, refl, Option, none, some, true, false, List, [], ◌∷◌,
  length, ltb, is_some, if_cases, arith,
}
use crash_wave.Prelude.Int.{ℤ}
use crash_wave.Betting.Types.{BetState, Outcome, returned, threw}
use crash_wave.Bets.Types.{BetRecord}
use crash_wave.Reconcile.Pages.{
  Sums, no_sums, add_bets, Pager, page_size, last_offset, scan, scan_page, page_fuel, after,
  scan_all, settled_states, Source, pooled, paged, expected_from, compute_expected_balance,
}

page-some :
    (size stop offset : ℕ) (s : Sums) (next : ℕ → Sums → Option (Outcome Sums))
    (a : Outcome (List BetRecord))
    → ((o : ℕ) (t : Sums) → o ≡ offset + size → o ≤ stop → is_some (next o t) ≡ true)
    → is_some (scan_page size stop offset s next a) ≡ true
unfolding scan_page
page-some size stop offset s next (threw m) h = refl
page-some size stop offset s next (returned []) h = refl
page-some size stop offset s next (returned (b ∷ bs)) h =
    if_cases (λ (r : Option (Outcome Sums)). is_some r ≡ true) (ltb (length (b ∷ bs)) size)
      (λ _. refl)
      (λ _.
        if_cases (λ (r : Option (Outcome Sums)). is_some r ≡ true) (ltb stop (offset + size))
          (λ _. refl)
          (λ (e : ltb stop (offset + size) ≡ false).
            h (offset + size) (add_bets (b ∷ bs) s) refl (within stop (offset + size) e)))
  where
    within : (m n : ℕ) → ltb m n ≡ false → n ≤ m
    within m n e = ground arith

-- Fuel for the pages up to the stop is enough, whatever the pages hold.
scan-some :
    (page : ℕ → ℕ → Outcome (List BetRecord)) (size stop n offset : ℕ) (s : Sums)
    → offset ≤ stop
    → stop < n * size + offset
    → is_some (scan page size stop n offset s) ≡ true
unfolding scan
scan-some page size stop zero offset s k h = absurd (omega (arith, k, h))
scan-some page size stop (suc n) offset s k h =
    page-some size stop offset s (λ o t. scan page size stop n o t) (page size offset)
      (λ o t e l. scan-some page size stop n o t l (omega (arith, h, e)))

after-some :
    (f : Sums → Option (Outcome Sums)) (r : Option (Outcome Sums))
    → is_some r ≡ true
    → ((s : Sums) → is_some (f s) ≡ true)
    → is_some (after f r) ≡ true
after-some f none h k = h
after-some f (some (threw m)) h k = refl
after-some f (some (returned s)) h k = k s

scan_all-some :
    (page : Pager) (sts : List BetState) (s : Sums) → is_some (scan_all page sts s) ≡ true
unfolding scan_all
scan_all-some page [] s = refl
scan_all-some page (st ∷ sts) s =
    after-some (λ t. scan_all page sts t) (scan (page st) page_size last_offset page_fuel zero s)
      (scan-some (page st) page_size last_offset page_fuel zero s (omega arith) (omega arith))
      (λ t. scan_all-some page sts t)

map-some :
    (f : Outcome Sums → Outcome ℤ) (r : Option (Outcome Sums))
    → is_some r ≡ true
    → is_some (map f r) ≡ true
map-some f none h = h
map-some f (some x) h = refl

-- The expected balance is computed for every repository, also for one that pages without end: the
-- fuel of the paging loops is never used up.
pub compute_expected_balance-Total :
    (src : Source) (current : Option ℤ) → is_some (compute_expected_balance src current) ≡ true
unfolding compute_expected_balance
compute_expected_balance-Total (pooled (threw m)) current = refl
compute_expected_balance-Total (pooled (returned row)) current = refl
compute_expected_balance-Total (paged page) current =
    map-some (expected_from current) (scan_all page settled_states no_sums)
      (scan_all-some page settled_states no_sums)
