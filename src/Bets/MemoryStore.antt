-- ===== src/Bets/MemoryStore.antt =====
-- InMemoryBetRepository as a repository of bets for its clients.
use mathlib.Core.Path.{subst}
use text.Mathlib.Text.{◌==◌ as str_eq}
use text.Mathlib.TextEquality.{eq_iff}
use crash_wave.Prelude.{
  ℕ, ◌<◌, length, ap, zero, suc, ◌≡◌, refl, ◌∙◌, sym, String, Option, none, some, Bool, true, false,
  List, [], ◌∷◌, arith, Bool-cases, inl, inr, if_cases, if_both, get_key, set_key, take, select,
  if◌then◌else◌, get-set,
}
use crash_wave.Betting.Types.{BetState, returned}
use crash_wave.Bets.Types.{BetRecord, CreateBetInput, UpdateBetInput, is_state_iff}
use crash_wave.Bets.Memory.{
  Table, InMemoryBetRepository, no_bets, values, in_state, updated, create, update, write_found,
  find_by_id, find_by_state, find_active_bets, new_bet, bet_name,
}
use crash_wave.Bets.Numbering.{NumberedTable, Numbered, create-Numbered, update-Numbered}
use crash_wave.Bets.Lookup.{WrittenAt, update-find_by_id}
use crash_wave.Bets.Store.{BetStore, Listed, Has, Written, update_option}

-- No key stands twice.
abbrev pub Apart : Table → Type 0
Apart [] = Unit
Apart ((k, b) ∷ m) = (get_key k m ≡ none) × Apart m

pub set_key-Apart : (k : String) (v : BetRecord) (m : Table) → Apart m → Apart (set_key k v m)
unfolding set_key get_key
set_key-Apart k v [] h = (refl, tt)
set_key-Apart k v ((i, w) ∷ m) (e, h) =
    if_cases Apart (str_eq i k) (λ _. (e, h))
      (λ (miss : str_eq i k ≡ false). (get-set k i v m ∙ other miss, set_key-Apart k v m h))
  where
    other : str_eq i k ≡ false → (if str_eq k i then some v else get_key i m) ≡ none
    other miss = ground (arith, eq_iff i k, eq_iff k i)

-- Every entry of the second table is what its key finds in the first.
abbrev FoundIn : Table → Table → Type 0
FoundIn m [] = Unit
FoundIn m ((k, b) ∷ n) = (get_key k m ≡ some b) × FoundIn m n

FoundIn-more :
    (k : String) (b : BetRecord) (m n : Table)
    → get_key k m ≡ none
    → FoundIn m n
    → FoundIn ((k, b) ∷ m) n
unfolding get_key
FoundIn-more k b m [] e h = tt
FoundIn-more k b m ((j, c) ∷ n) e (f, h) = (ground (arith, eq_iff k j), FoundIn-more k b m n e h)

Apart-FoundIn : (m : Table) → Apart m → FoundIn m m
unfolding get_key
Apart-FoundIn [] h = tt
Apart-FoundIn ((k, b) ∷ m) (e, h) =
    (rw ((eq_iff k k).1 refl) refl, FoundIn-more k b m m e (Apart-FoundIn m h))

selected-Listed :
    (st : BetState) (n : ℕ) (m t : Table)
    → NumberedTable n t
    → FoundIn m t
    → Listed (λ id. get_key id m) st (select (in_state st) (values t))
selected-Listed st n m [] h f = tt
selected-Listed st n m ((k, b) ∷ t) (g, d, h) (e, f) =
    if_cases (Listed (λ (id : String). get_key id m) st) (in_state st b)
      (λ (hit : in_state st b ≡ true). (
        subst (λ (i : String). get_key i m ≡ some b) (sym d) e,
        (is_state_iff b.state st).0 hit,
        selected-Listed st n m t h f,
      ))
      (λ _. selected-Listed st n m t h f)

take-Listed :
    (look : String → Option BetRecord) (st : BetState) (limit : ℕ) (bs : List BetRecord)
    → Listed look st bs
    → Listed look st (take limit bs)
take-Listed look st zero bs h = tt
take-Listed look st (suc n) [] h = tt
take-Listed look st (suc n) (b ∷ bs) (e, s, h) = (e, s, take-Listed look st n bs h)

some_inj : {A : Type 0} {a b : A} → some a ≡ some b → a ≡ b
some_inj e = cc

returned_inj : {A : Type 0} {a b : A} → returned a ≡ returned b → a ≡ b
returned_inj e = cc

-- A repository in a state that its own operations lead to.
pub record KeptRepository : Type 0 where
  pub repository : InMemoryBetRepository
  pub numbered : Numbered repository
  pub apart : Apart repository.bets

unfoldable pub create_kept : CreateBetInput → ℕ → KeptRepository → KeptRepository
unfolding create new_bet
create_kept input now k = record {
  repository = (create input now k.repository).1;
  numbered = create-Numbered input now k.repository k.numbered;
  apart =
      set_key-Apart (bet_name k.repository.next_id)
        (new_bet (bet_name k.repository.next_id) input now) k.repository.bets k.apart;
}

abbrev pub none_kept : KeptRepository
none_kept = record { repository = no_bets; numbered = tt; apart = tt }

pub update-Apart :
    (id : String) (input : UpdateBetInput) (o : Option BetRecord) (r : InMemoryBetRepository)
    → Apart r.bets
    → Apart (write_found id input o r).1.bets
unfolding write_found
update-Apart id input none r h = h
update-Apart id input (some b) r h = set_key-Apart id (updated input b) r.bets h

unfoldable pub update_kept : String → UpdateBetInput → KeptRepository → KeptRepository
unfolding update
update_kept id input k = record {
  repository = (update id input k.repository).1;
  numbered = update-Numbered id input k.repository k.numbered;
  apart = update-Apart id input (get_key id k.repository.bets) k.repository k.apart;
}

kept_written :
    (id : String) (input : UpdateBetInput) (k : KeptRepository) (o : Option BetRecord)
    (w : Option BetRecord × InMemoryBetRepository)
    → get_key id k.repository.bets ≡ o
    → WrittenAt id input o w k.repository
    → (j : String)
    → get_key j w.1.bets ≡ (
        if str_eq id j
        then update_option input (get_key id k.repository.bets)
        else get_key j k.repository.bets)
unfolding find_by_id
kept_written id input k none w e h j = elim (Bool-cases (str_eq id j)) [
  | inl hit ↦
      rw (h.1, hit, e)
        (subst (λ (i : String). get_key i k.repository.bets ≡ none) ((eq_iff id j).0 hit) e)
  | inr miss ↦ rw (h.1, miss) refl
]
kept_written id input k (some b) w e h j = rw e (h.1 j)

pub memory_written :
    (id : String) (input : UpdateBetInput) (k : KeptRepository)
    → Written
        (λ j. get_key j k.repository.bets)
        id
        input
        (returned (update id input k.repository).0)
        (λ j. get_key j (update_kept id input k).repository.bets)
unfolding update_kept find_by_id
memory_written id input k j =
    kept_written id input k (get_key id k.repository.bets) (update id input k.repository) refl
      (update-find_by_id id input k.repository) j

pub memory-Listed :
    (st : BetState) (limit : ℕ) (k : KeptRepository) (bs : List BetRecord)
    → returned (find_by_state st limit k.repository) ≡ returned bs
    → Listed (λ id. get_key id k.repository.bets) st bs
unfolding find_by_state
memory-Listed st limit k bs e =
    let t = k.repository.bets in
    let look = λ (id : String). get_key id t in
    subst (Listed look st) (returned_inj e) (
      take-Listed look st limit (select (in_state st) (values t))
        (selected-Listed st k.repository.next_id t t k.numbered (Apart-FoundIn t k.apart)))

pub memory_found :
    (id : String) (k : KeptRepository) (o : Option BetRecord)
    → returned (find_by_id id k.repository) ≡ returned o
    → o ≡ get_key id k.repository.bets
unfolding find_by_id
memory_found id k o e = cc

selected-Has :
    (st : BetState) (n : ℕ) (m : Table) (id : String) (b : BetRecord)
    → NumberedTable n m
    → get_key id m ≡ some b
    → b.state ≡ st
    → Has id (select (in_state st) (values m))
unfolding get_key
selected-Has st n [] id b t e s = cc
selected-Has st n ((k, c) ∷ m) id b (g, d, t) e s =
    if_cases
      (λ (o : Option BetRecord). o ≡ some b → Has id (select (in_state st) (values ((k, c) ∷ m))))
      (str_eq k id)
      (λ (hit : str_eq k id ≡ true) (h : some c ≡ some b).
        let on : in_state st c ≡ true = (is_state_iff c.state st).1 (cc (some_inj h)) in
        subst
          (λ (t : Bool).
            Has id
              (if t then c ∷ select (in_state st) (values m) else select (in_state st) (values m)))
          (sym on) (inl (d ∙ (eq_iff k id).0 hit)))
      (λ _ h.
        let later = selected-Has st n m id b t h s in
        if_both (Has id) (in_state st c) (inr later) later)
      e

short_take : (limit : ℕ) (bs : List BetRecord) → length (take limit bs) < limit → take limit bs ≡ bs
short_take zero bs h = absurd (omega arith)
short_take (suc n) [] h = refl
short_take (suc n) (b ∷ bs) h = ap (λ (r : List BetRecord). b ∷ r) (short_take n bs (omega arith))

pub memory-Has :
    (st : BetState) (limit : ℕ) (k : KeptRepository) (bs : List BetRecord) (id : String)
    (b : BetRecord)
    → returned (find_by_state st limit k.repository) ≡ returned bs
    → length bs < limit
    → get_key id k.repository.bets ≡ some b
    → b.state ≡ st
    → Has id bs
unfolding find_by_state
memory-Has st limit k bs id b e short h s =
    let xs = select (in_state st) (values k.repository.bets) in
    let whole : take limit xs ≡ xs =
      short_take limit xs
        (subst (λ (r : List BetRecord). length r < limit) (sym (returned_inj e)) short) in
    subst (Has id) (sym whole ∙ returned_inj e)
      (selected-Has st k.repository.next_id k.repository.bets id b k.numbered h s)

-- The calls in memory never throw.
abbrev pub memory_store : BetStore KeptRepository
memory_store = record {
  look = λ k id. get_key id k.repository.bets;
  find_by_id = λ id k. returned (find_by_id id k.repository);
  find_by_state = λ st limit k. returned (find_by_state st limit k.repository);
  find_active_bets = λ k. returned (find_active_bets k.repository);
  update = λ id input k. (returned (update id input k.repository).0, update_kept id input k);
  found = memory_found;
  listed = memory-Listed;
  all_listed = memory-Has;
  written = memory_written;
}
