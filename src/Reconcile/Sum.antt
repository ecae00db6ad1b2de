-- ===== src/Reconcile/Sum.antt =====
-- The sums that the pages of src/ledger/balance-reconciliation.ts must give: over all bets at once.

use mathlib.Core.Option.{map}
use crash_wave.Prelude.{
  ℕ, zero, suc, ◌+◌, ◌*◌, ◌≤◌, ◌<◌, ◌≡◌, refl, sym, ◌∙◌, ap, Option, none, some, true, false, List,
  [], ◌∷◌, ◌++◌, length, take, drop, take-append_drop, drop-drop, length-take, length-drop, ltb,
  or_else, if_cases, arith,
}
use crash_wave.Prelude.Int.{ℤ, pos, ◌+ℤ◌, int_laws}
use crash_wave.Betting.Types.{BetState, Outcome, returned}
use crash_wave.Bets.Types.{BetRecord}
use crash_wave.Reconcile.Pages.{
  Sums, no_sums, first_known, add_known, add_bet, add_bets, Pager, page_size, last_offset, scan,
  scan_page, page_fuel, after, scan_all, settled_states, paged, balance_of, balance_from,
  expected_from, compute_expected_balance,
}

-- The results that are known, added up, and the first balance that is known.
abbrev pub pnl_sum : List BetRecord → ℤ
pnl_sum [] = pos 0
pnl_sum (b ∷ bs) = or_else b.pnl (pos 0) +ℤ pnl_sum bs

abbrev pub first_balance : List BetRecord → Option ℤ
first_balance [] = none
first_balance (b ∷ bs) = first_known b.balance_before (first_balance bs)

add_bets-append :
    (xs ys : List BetRecord) (s : Sums) → add_bets (xs ++ ys) s ≡ add_bets ys (add_bets xs s)
add_bets-append [] ys s = refl
add_bets-append (x ∷ xs) ys s = add_bets-append xs ys (add_bet x s)

first_known_assoc :
    (a b c : Option ℤ) → first_known (first_known a b) c ≡ first_known a (first_known b c)
first_known_assoc none b c = refl
first_known_assoc (some a) b c = refl

add_bets-baseline :
    (bs : List BetRecord) (s : Sums)
    → (add_bets bs s).baseline_balance ≡ first_known s.baseline_balance (first_balance bs)
add_bets-baseline [] s = first_none s.baseline_balance
  where
    first_none : (a : Option ℤ) → a ≡ first_known a none
    first_none none = refl
    first_none (some a) = refl
add_bets-baseline (b ∷ bs) s =
    add_bets-baseline bs (add_bet b s)
    ∙ first_known_assoc s.baseline_balance b.balance_before (first_balance bs)

add_zero : (a : ℤ) → a +ℤ pos 0 ≡ a
add_zero a = grind int_laws

add_assoc : (a b c : ℤ) → (a +ℤ b) +ℤ c ≡ a +ℤ (b +ℤ c)
add_assoc a b c = grind int_laws

zero_add : (a : ℤ) → pos 0 +ℤ a ≡ a
zero_add a = grind int_laws

add_known-add : (p : Option ℤ) (t : ℤ) → add_known p t ≡ t +ℤ or_else p (pos 0)
add_known-add none t = sym (add_zero t)
add_known-add (some p) t = refl

add_bets-pnl :
    (bs : List BetRecord) (s : Sums) → (add_bets bs s).total_pnl ≡ s.total_pnl +ℤ pnl_sum bs
add_bets-pnl [] s = sym (add_zero s.total_pnl)
add_bets-pnl (b ∷ bs) s =
    add_bets-pnl bs (add_bet b s)
    ∙ ap (λ (t : ℤ). t +ℤ pnl_sum bs) (add_known-add b.pnl s.total_pnl)
    ∙ add_assoc s.total_pnl (or_else b.pnl (pos 0)) (pnl_sum bs)

-- The list at which a page stands is the page and a rest: after a short page there is no rest, and
-- after a full one the loop goes on within the stop.
scan_page-append :
    (pg rest : List BetRecord) (size stop offset : ℕ) (s : Sums)
    (next : ℕ → Sums → Option (Outcome Sums))
    → 0 < size
    → (length pg < size → rest ≡ [])
    → (size ≤ length pg → offset + size ≤ stop)
    → ((t : Sums)
        → offset + size ≤ stop
        → next (offset + size) t ≡ some (returned (add_bets rest t)))
    → scan_page size stop offset s next (returned pg) ≡ some (returned (add_bets (pg ++ rest) s))
unfolding scan_page
scan_page-append [] rest size stop offset s next z short full h =
    sym (ap (λ (r : List BetRecord). some (returned (add_bets r s))) (short z))
scan_page-append (b ∷ bs) rest size stop offset s next z short full h =
    let sum = add_bets (b ∷ bs) s in
    let all = add_bets-append (b ∷ bs) rest s in
    if_cases (λ (r : Option (Outcome Sums)). r ≡ some (returned (add_bets (b ∷ bs ++ rest) s)))
      (ltb (length (b ∷ bs)) size)
      (λ e. sym (
        ap (λ (t : Sums). some (returned t))
          (all
            ∙ ap (λ (r : List BetRecord). add_bets r sum)
                (short (is_less (length (b ∷ bs)) size e)))))
      (λ e.
        if_cases (λ (r : Option (Outcome Sums)). r ≡ some (returned (add_bets (b ∷ bs ++ rest) s)))
          (ltb stop (offset + size))
          (λ f. absurd (beyond stop (offset + size) f (full (not_less (length (b ∷ bs)) size e))))
          (λ f.
            h sum (full (not_less (length (b ∷ bs)) size e))
            ∙ sym (ap (λ (t : Sums). some (returned t)) all)))
  where
    is_less : (m n : ℕ) → ltb m n ≡ true → m < n
    is_less m n e = ground arith

    not_less : (m n : ℕ) → ltb m n ≡ false → n ≤ m
    not_less m n e = ground arith

    beyond : (m n : ℕ) → ltb m n ≡ true → n ≤ m → ⊥
    beyond m n e l = ground arith

nil_of_length : (xs : List BetRecord) → length xs ≡ 0 → xs ≡ []
nil_of_length [] h = refl
nil_of_length (x ∷ xs) h = absurd (omega (arith, h))

-- The loop over the pages of a list, from an offset on.
scan-drop :
    (page : ℕ → ℕ → Outcome (List BetRecord)) (rows : List BetRecord) (size stop n offset : ℕ)
    (s : Sums)
    → ((limit o : ℕ) → page limit o ≡ returned (take limit (drop o rows)))
    → 0 < size
    → length rows ≤ stop
    → offset ≤ stop
    → stop < n * size + offset
    → scan page size stop n offset s ≡ some (returned (add_bets (drop offset rows) s))
unfolding scan
scan-drop page rows size stop zero offset s p z w k h = absurd (omega (arith, k, h))
scan-drop page rows size stop (suc n) offset s p z w k h =
    let from = drop offset rows in
    let l = length-take size from in
    let d = length-drop size from in
    let e = length-drop offset rows in
    ap (scan_page size stop offset s (λ o t. scan page size stop n o t)) (p size offset)
    ∙ scan_page-append (take size from) (drop size from) size stop offset s
        (λ o t. scan page size stop n o t) z
        (λ short. nil_of_length (drop size from) (omega (arith, short, l, d)))
        (λ full. omega (arith, full, l, e, w))
        (λ t within.
          scan-drop page rows size stop n (offset + size) t p z w within (omega (arith, h))
          ∙ ap (λ (r : List BetRecord). some (returned (add_bets r t)))
              (sym (drop-drop size offset rows)))
    ∙ ap (λ (r : List BetRecord). some (returned (add_bets r s))) (take-append_drop size from)

-- Pages of lists that end before the safety stop.
abbrev pub PagesOf : (BetState → List BetRecord) → Pager → Type 0
PagesOf rows page =
    ((st : BetState) (limit offset : ℕ)
      → page st limit offset ≡ returned (take limit (drop offset (rows st))))
    × ((st : BetState) → length (rows st) ≤ last_offset)

abbrev pub rows_of : (BetState → List BetRecord) → List BetState → List BetRecord
rows_of rows [] = []
rows_of rows (st ∷ sts) = rows st ++ rows_of rows sts

scan_all-rows :
    (page : Pager) (rows : BetState → List BetRecord) (sts : List BetState) (s : Sums)
    → PagesOf rows page
    → scan_all page sts s ≡ some (returned (add_bets (rows_of rows sts) s))
unfolding scan_all
scan_all-rows page rows [] s h = refl
scan_all-rows page rows (st ∷ sts) s h =
    ap (after (λ t. scan_all page sts t)) (
      scan-drop (page st) (rows st) page_size last_offset page_fuel zero s (h.0 st) (omega arith)
        (h.1 st) (omega arith) (omega arith))
    ∙ scan_all-rows page rows sts (add_bets (rows st) s) h
    ∙ ap (λ (t : Sums). some (returned t)) (sym (add_bets-append (rows st) (rows_of rows sts) s))

-- The balance that a list of bets leaves: the first balance that is known and all known results,
-- or the tracker's balance where none is known.
abbrev pub ledger_balance : Option ℤ → List BetRecord → ℤ
ledger_balance current bs = balance_of current (first_balance bs) (pnl_sum bs)

balance_from-add_bets :
    (current : Option ℤ) (bs : List BetRecord)
    → balance_from current (add_bets bs no_sums) ≡ ledger_balance current bs
balance_from-add_bets current bs =
    ap (balance_of current (add_bets bs no_sums).baseline_balance)
      (add_bets-pnl bs no_sums ∙ zero_add (pnl_sum bs))
    ∙ ap (λ (b : Option ℤ). balance_of current b (pnl_sum bs)) (add_bets-baseline bs no_sums)

-- When the pages of each state are those of a list of at most 1,000,000 bets, the expected balance
-- is that of all the cashed out, lost, failed and reconciled bets, in this order: no bet is left out
-- or counted twice.
pub compute_expected_balance-rows :
    (page : Pager) (rows : BetState → List BetRecord) (current : Option ℤ)
    → PagesOf rows page
    → compute_expected_balance (paged page) current
      ≡ some (returned (ledger_balance current (rows_of rows settled_states)))
unfolding compute_expected_balance
compute_expected_balance-rows page rows current h =
    ap (map (expected_from current)) (scan_all-rows page rows settled_states no_sums h)
    ∙ ap (λ (t : ℤ). some (returned t))
        (balance_from-add_bets current (rows_of rows settled_states))
