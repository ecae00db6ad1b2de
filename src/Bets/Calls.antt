-- ===== src/Bets/Calls.antt =====
-- Any sequence of calls of InMemoryBetRepository.
use text.Mathlib.Text.{◌==◌ as str_eq}
use text.Mathlib.TextEquality.{eq_iff}
use mathlib.Core.Path.{subst}
use crash_wave.Prelude.{
  ℕ, ◌≡◌, refl, sym, String, Option, none, some, Bool, true, not, List, [], ◌∷◌, every, if_cases,
  and_parts, get-delete_key,
}
use crash_wave.Bets.Types.{BetRecord, CreateBetInput, UpdateBetInput}
use crash_wave.Bets.Memory.{InMemoryBetRepository, create, updated, update, delete, find_by_id}
use crash_wave.Bets.Numbering.{Numbered, create-Numbered, update-Numbered, delete-Numbered}
use crash_wave.Bets.Lookup.{WrittenAt, create-find_by_id, update-find_by_id}

pub data BetCall : Type 0 where
  create_call : CreateBetInput → ℕ → BetCall
  update_call : String → UpdateBetInput → BetCall
  delete_call : String → BetCall

abbrev pub apply : BetCall → InMemoryBetRepository → InMemoryBetRepository
apply (create_call input now) r = (create input now r).1
apply (update_call id input) r = (update id input r).1
apply (delete_call id) r = (delete id r).1

abbrev pub run_calls : List BetCall → InMemoryBetRepository → InMemoryBetRepository
run_calls [] r = r
run_calls (c ∷ cs) r = run_calls cs (apply c r)

abbrev pub spares : String → BetCall → Bool
spares id (delete_call k) = not (str_eq k id)
spares id _ = true

apply-Numbered : (c : BetCall) (r : InMemoryBetRepository) → Numbered r → Numbered (apply c r)
apply-Numbered (create_call input now) r = create-Numbered input now r
apply-Numbered (update_call id input) r = update-Numbered id input r
apply-Numbered (delete_call id) r = delete-Numbered id r

pub run_calls-Numbered :
    (cs : List BetCall) (r : InMemoryBetRepository) → Numbered r → Numbered (run_calls cs r)
run_calls-Numbered [] r h = h
run_calls-Numbered (c ∷ cs) r h = run_calls-Numbered cs (apply c r) (apply-Numbered c r h)

-- A bet is found with the identifier, day, stake, target and time of creation of `b`.
abbrev pub SameTerms : BetRecord → Option BetRecord → Type 0
SameTerms b none = ⊥
SameTerms b (some c) =
    (c.id ≡ b.id)
    × (c.daily_key ≡ b.daily_key)
    × (c.stake ≡ b.stake)
    × (c.cash_out_target ≡ b.cash_out_target)
    × (c.created_at ≡ b.created_at)

create-SameTerms :
    (input : CreateBetInput) (now : ℕ) (r : InMemoryBetRepository) (b : BetRecord) (id : String)
    → Numbered r
    → SameTerms b (find_by_id id r)
    → SameTerms b (find_by_id id (create input now r).1)
create-SameTerms input now r b id n h =
    let k = (create input now r).0.id in
    let found = create-find_by_id input now r n in
    rw (found.1 id) (
      if_cases (SameTerms b) (str_eq k id)
        (λ (hit : str_eq k id ≡ true). absurd (
          subst (SameTerms b)
            (subst (λ (j : String). find_by_id j r ≡ none) ((eq_iff k id).0 hit) found.0) h))
        (λ _. h))

write-SameTerms :
    (k id : String) (input : UpdateBetInput) (o : Option BetRecord)
    (w : Option BetRecord × InMemoryBetRepository) (r : InMemoryBetRepository) (b : BetRecord)
    → find_by_id k r ≡ o
    → WrittenAt k input o w r
    → SameTerms b (find_by_id id r)
    → SameTerms b (find_by_id id w.1)
unfolding updated
write-SameTerms k id input none w r b e t h =
    subst (λ (s : InMemoryBetRepository). SameTerms b (find_by_id id s)) (sym t.1) h
write-SameTerms k id input (some c) w r b e t h = rw (t.1 id) (
    if_cases (SameTerms b) (str_eq k id)
      (λ (hit : str_eq k id ≡ true).
        subst (SameTerms b)
          (subst (λ (j : String). find_by_id j r ≡ some c) ((eq_iff k id).0 hit) e) h)
      (λ _. h))

delete-SameTerms :
    (k id : String) (r : InMemoryBetRepository) (b : BetRecord)
    → not (str_eq k id) ≡ true
    → SameTerms b (find_by_id id r)
    → SameTerms b (find_by_id id (delete k r).1)
unfolding delete find_by_id
delete-SameTerms k id r b n h =
    rw (get-delete_key k id r.bets) (
      if_cases (SameTerms b) (str_eq k id) (λ (hit : str_eq k id ≡ true). absurd (bad hit))
        (λ _. h))
  where
    bad : str_eq k id ≡ true → ⊥
    bad hit = cc

apply-SameTerms :
    (c : BetCall) (id : String) (r : InMemoryBetRepository) (b : BetRecord)
    → Numbered r
    → spares id c ≡ true
    → SameTerms b (find_by_id id r)
    → SameTerms b (find_by_id id (apply c r))
apply-SameTerms (create_call input now) id r b n s = create-SameTerms input now r b id n
apply-SameTerms (update_call k input) id r b n s =
    write-SameTerms k id input (find_by_id k r) (update k input r) r b refl
      (update-find_by_id k input r)
apply-SameTerms (delete_call k) id r b n s = delete-SameTerms k id r b s

-- In a repository whose keys it gave out itself, no sequence of calls that does not delete a bet
-- loses it or changes its identifier, day, stake, target or time of creation.
pub run_calls-SameTerms :
    (cs : List BetCall) (id : String) (r : InMemoryBetRepository) (b : BetRecord)
    → Numbered r
    → every (spares id) cs ≡ true
    → SameTerms b (find_by_id id r)
    → SameTerms b (find_by_id id (run_calls cs r))
run_calls-SameTerms [] id r b n s h = h
run_calls-SameTerms (c ∷ cs) id r b n s h =
    let both = and_parts (spares id c) (every (spares id) cs) s in
    run_calls-SameTerms cs id (apply c r) b (apply-Numbered c r n) both.1
      (apply-SameTerms c id r b n both.0 h)
