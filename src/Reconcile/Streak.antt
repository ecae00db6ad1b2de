-- ===== src/Reconcile/Streak.antt =====
-- When the reconciler of src/ledger/balance-reconciliation.ts halts and pauses.

use mathlib.Core.Option.{map}
use crash_wave.Prelude.{
  ℕ, suc, ◌+◌, ◌≤◌, ◌≡◌, refl, ◌∙◌, ap, Option, none, some, Bool, true, false, ◌&&◌, List, [], ◌∷◌,
  ◌++◌, leb, if◌then◌else◌, arith,
}
use crash_wave.Prelude.Int.{ℤ, ◌-ℤ◌}
use crash_wave.Betting.Types.{Outcome, returned, threw, Done}
use crash_wave.Reconcile.Pages.{first_known, compute_expected_balance}
use crash_wave.Reconcile.Run.{
  ReconciliationResult, BalanceReconciliationConfig, Event, critical_error, system_paused,
  BalanceReconciliation, new_reconciliation, Seen, should_halt, emitting, emitted_then, emit_if,
  handle_mismatch, within, compared_result, alerted, compare_balances, with_expected, reconcile,
  after_call, reconcile_all,
}

-- Whether a call finds the two balances within the tolerance, if it compares any.
abbrev pub agreement : BalanceReconciliationConfig → Option ℤ → Outcome ℤ → Option Bool
agreement c (some actual) (returned expected) = some (within c.tolerance (actual -ℤ expected))
agreement c _ _ = none

abbrev pub call_agreement : BalanceReconciliationConfig → Seen → Option (Outcome ℤ) → Option Bool
call_agreement c seen none = none
call_agreement c seen (some expected) = agreement c (first_known seen.given seen.current) expected

abbrev pub noted : Option Bool → List Bool → List Bool
noted none bs = bs
noted (some b) bs = b ∷ bs

-- The agreements of the calls that compare, latest first.
abbrev pub agreements : BalanceReconciliationConfig → List Seen → List Bool → List Bool
agreements c [] bs = bs
agreements c (seen ∷ rest) bs =
    agreements c rest
      (noted (call_agreement c seen (compute_expected_balance seen.source seen.current)) bs)

abbrev pub three_disagree : List Bool → Bool
three_disagree (false ∷ false ∷ false ∷ bs) = true
three_disagree _ = false

-- Every pause that was asked for is allowed and names a third mismatch or a later one.
abbrev pub Paused : BalanceReconciliationConfig → List Event → Type 0
Paused c [] = Unit
Paused c (critical_error r ∷ es) = Paused c es
Paused c (system_paused n ∷ es) = (3 ≤ n) × (c.halt_on_mismatch ≡ true) × Paused c es

abbrev disagreeing : List Bool → ℕ
disagreeing [] = 0
disagreeing (true ∷ bs) = 0
disagreeing (false ∷ bs) = suc (disagreeing bs)

abbrev Streak : BalanceReconciliationConfig → List Bool → BalanceReconciliation → Type 0
Streak c bs r = (r.consecutive_mismatches ≡ disagreeing bs) × Paused c r.emitted

Paused-critical_error :
    (c : BalanceReconciliationConfig) (r : ReconciliationResult) (es : List Event)
    → Paused c es
    → Paused c (es ++ critical_error r ∷ [])
Paused-critical_error c r [] h = tt
Paused-critical_error c r (critical_error q ∷ es) h = Paused-critical_error c r es h
Paused-critical_error c r (system_paused n ∷ es) (l, a, h) = (l, a, Paused-critical_error c r es h)

Paused-system_paused :
    (c : BalanceReconciliationConfig) (n : ℕ) (es : List Event)
    → 3 ≤ n
    → c.halt_on_mismatch ≡ true
    → Paused c es
    → Paused c (es ++ system_paused n ∷ [])
Paused-system_paused c n [] l a h = (l, a, h)
Paused-system_paused c n (critical_error q ∷ es) l a h = Paused-system_paused c n es l a h
Paused-system_paused c n (system_paused m ∷ es) l a (k, b, h) =
    (k, b, Paused-system_paused c n es l a h)

-- An emission keeps what its event allows and what follows it keeps.
emit_if-keeps :
    (P : BalanceReconciliation → Type 0) (b : Bool) (seen : Seen) (e : Event)
    (next : BalanceReconciliation → Outcome Bool × BalanceReconciliation)
    (r : BalanceReconciliation)
    → ((b ≡ true) → P (emitting e r))
    → ((q : BalanceReconciliation) → P q → P (next q).1)
    → P r
    → P (emit_if b seen e next r).1
emit_if-keeps P false seen e next r h k p = k r p
emit_if-keeps P true seen e next r h k p = answered (seen.emit e)
  where
    answered : (o : Outcome Done) → P (emitted_then next (emitting e r) o).1
    answered (returned d) = k (emitting e r) (h refl)
    answered (threw m) = h refl

both_true : (a b : Bool) → (a && b) ≡ true → (a ≡ true) × (b ≡ true)
both_true true b h = (refl, h)
both_true false b h = ground arith

handle_mismatch-Streak :
    (c : BalanceReconciliationConfig) (seen : Seen) (result : ReconciliationResult) (bs : List Bool)
    (r : BalanceReconciliation)
    → Streak c bs r
    → Streak c bs (handle_mismatch c seen result r).1
unfolding handle_mismatch should_halt
handle_mismatch-Streak c seen result bs r h =
    emit_if-keeps (Streak c bs) c.emit_alerts seen (critical_error result) _ r
      (λ _. (h.0, Paused-critical_error c result r.emitted h.1))
      (λ q k.
        emit_if-keeps (Streak c bs) (c.halt_on_mismatch && should_halt q) seen
          (system_paused q.consecutive_mismatches) _ q
          (λ e.
            let (a, l) = both_true c.halt_on_mismatch (should_halt q) e in
            (
              k.0,
              Paused-system_paused c q.consecutive_mismatches q.emitted
                  (three q.consecutive_mismatches l) a k.1,
            ))
          (λ p m. m) k)
      h
  where
    three : (n : ℕ) → leb 3 n ≡ true → 3 ≤ n
    three n e = ground arith

alerted-Streak :
    (c : BalanceReconciliationConfig) (result : ReconciliationResult) (bs : List Bool)
    (w : Outcome Bool × BalanceReconciliation)
    → Streak c bs w.1
    → Streak c bs (alerted result w).1
alerted-Streak c result bs (returned sent, r) h = h
alerted-Streak c result bs (threw m, r) h = h

-- Either branch of the comparison.
branch-Streak :
    (c : BalanceReconciliationConfig) (seen : Seen) (x : ReconciliationResult) (b : Bool)
    (bs : List Bool) (r : BalanceReconciliation)
    → Streak c bs r
    → Streak c
        (b ∷ bs)
        (if b
          then (returned x, record r { consecutive_mismatches = 0; last_result = some x })
          else alerted x (
              handle_mismatch c seen x
                (record r { consecutive_mismatches = r.consecutive_mismatches + 1 }))).1
branch-Streak c seen x true bs r h = (refl, h.1)
branch-Streak c seen x false bs r h =
    let next = record r { consecutive_mismatches = r.consecutive_mismatches + 1 } in
    alerted-Streak c x (false ∷ bs) (handle_mismatch c seen x next)
      (handle_mismatch-Streak c seen x (false ∷ bs) next (omega (arith, h.0), h.1))

compare_balances-Streak :
    (c : BalanceReconciliationConfig) (seen : Seen) (expected : ℤ) (actual : Option ℤ)
    (bs : List Bool) (r : BalanceReconciliation)
    → Streak c bs r
    → Streak c
        (noted (agreement c actual (returned expected)) bs)
        (compare_balances c seen expected actual r).1
unfolding compare_balances
compare_balances-Streak c seen expected none bs r h = h
compare_balances-Streak c seen expected (some actual) bs r h =
    branch-Streak c seen (compared_result c seen expected actual)
      (within c.tolerance (actual -ℤ expected)) bs r h

expected-Streak :
    (c : BalanceReconciliationConfig) (seen : Seen) (bs : List Bool) (r : BalanceReconciliation)
    (o : Option (Outcome ℤ))
    → Streak c bs r
    → Streak c (noted (call_agreement c seen o) bs) (after_call r (map (with_expected c seen r) o))
expected-Streak c seen bs r none h = h
expected-Streak c seen bs r (some (threw m)) h = no_expected (first_known seen.given seen.current)
  where
    no_expected : (a : Option ℤ) → Streak c (noted (agreement c a (threw m)) bs) r
    no_expected none = h
    no_expected (some a) = h
expected-Streak c seen bs r (some (returned expected)) h =
    compare_balances-Streak c seen expected (first_known seen.given seen.current) bs r h

all-Streak :
    (c : BalanceReconciliationConfig) (os : List Seen) (bs : List Bool) (r : BalanceReconciliation)
    → Streak c bs r
    → Streak c (agreements c os bs) (reconcile_all c os r)
unfolding reconcile_all reconcile
all-Streak c [] bs r h = h
all-Streak c (seen ∷ rest) bs r h =
    let e = compute_expected_balance seen.source seen.current in
    all-Streak c rest (noted (call_agreement c seen e) bs)
      (after_call r (map (with_expected c seen r) e)) (expected-Streak c seen bs r e h)

three-disagree : (bs : List Bool) → leb 3 (disagreeing bs) ≡ three_disagree bs
three-disagree [] = refl
three-disagree (true ∷ bs) = refl
three-disagree (false ∷ []) = refl
three-disagree (false ∷ true ∷ bs) = refl
three-disagree (false ∷ false ∷ []) = refl
three-disagree (false ∷ false ∷ true ∷ bs) = refl
three-disagree (false ∷ false ∷ false ∷ bs) = ground arith

-- After any calls of a new reconciler, it is to halt just when the last three comparisons that
-- were made found the balances apart: a call that compares nothing neither breaks the streak nor
-- adds to it. It has asked for a pause only where the configuration allows it, and only at a third
-- mismatch or a later one.
pub reconcile_all-should_halt :
    (c : BalanceReconciliationConfig) (os : List Seen)
    → let r = reconcile_all c os new_reconciliation in
      (should_halt r ≡ three_disagree (agreements c os [])) × Paused c r.emitted
unfolding should_halt
reconcile_all-should_halt c os =
    let h = all-Streak c os [] new_reconciliation (refl, tt) in
    (ap (λ (n : ℕ). leb 3 n) h.0 ∙ three-disagree (agreements c os []), h.1)
