-- ===== src/Bets/Numbering.antt =====
-- The keys that InMemoryBetRepository gives out.

use text.Mathlib.Text.{◌==◌ as str_eq}
use text.Mathlib.TextEquality.{eq_iff}
use text.Mathlib.TextLemmas.{append_cancel_left}
use crash_wave.Prelude.{
  ℕ, ◌+◌, ◌<◌, ◌≡◌, refl, ◌∙◌, sym, String, Option, none, some, false, [], ◌∷◌, ◌++◌, get_key,
  set_key, delete_key, arith, Bool-cases, inl, inr, set_key-new, if_both,
}
use crash_wave.Prelude.Decimal.{decimal, decimal_inj}
use crash_wave.Bets.Types.{BetRecord, CreateBetInput, UpdateBetInput}
use crash_wave.Bets.Memory.{
  Table, InMemoryBetRepository, bet_name, new_bet, create, updated, write_found, update, delete,
}

bet_name_inj : (m n : ℕ) → bet_name m ≡ bet_name n → m ≡ n
unfolding bet_name
bet_name_inj m n e = decimal_inj m n (append_cancel_left "bet-" (decimal m) (decimal n) e)

abbrev pub Given : ℕ → String → Type 0
Given n k = (i : ℕ) × (k ≡ bet_name i) × (i < n)

-- Every key is a name given out before, and stands in its record.
abbrev pub NumberedTable : ℕ → Table → Type 0
NumberedTable n [] = Unit
NumberedTable n ((k, b) ∷ m) = Given n k × (b.id ≡ k) × NumberedTable n m

abbrev pub Numbered : InMemoryBetRepository → Type 0
Numbered r = NumberedTable r.next_id r.bets

Given-differs : (n : ℕ) (k : String) → Given n k → str_eq k (bet_name n) ≡ false
Given-differs n k (i, e, h) = elim (Bool-cases (str_eq k (bet_name n))) [
  | inl hit ↦ absurd (omega (arith, bet_name_inj i n (sym e ∙ (eq_iff k (bet_name n)).0 hit)))
  | inr miss ↦ miss
]

pub bet_name-unused : (n : ℕ) (m : Table) → NumberedTable n m → get_key (bet_name n) m ≡ none
unfolding get_key
bet_name-unused n [] h = refl
bet_name-unused n ((k, b) ∷ m) h = rw (Given-differs n k h.0) (bet_name-unused n m h.2)

NumberedTable-later : (n : ℕ) (m : Table) → NumberedTable n m → NumberedTable (n + 1) m
NumberedTable-later n [] h = tt
NumberedTable-later n ((k, b) ∷ m) ((i, e, l), d, t) =
    ((i, e, omega arith), d, NumberedTable-later n m t)

NumberedTable-append :
    (n : ℕ) (k : String) (b : BetRecord) (m : Table)
    → NumberedTable n m
    → Given n k
    → b.id ≡ k
    → NumberedTable n (m ++ (k, b) ∷ [])
NumberedTable-append n k b [] t g e = (g, e, tt)
NumberedTable-append n k b ((j, c) ∷ m) (h, d, t) g e = (h, d, NumberedTable-append n k b m t g e)

-- A record in the table is the one that its key finds, and its identifier is the key.
pub id-find :
    (n : ℕ) (k : String) (b : BetRecord) (m : Table)
    → NumberedTable n m
    → get_key k m ≡ some b
    → b.id ≡ k
unfolding get_key
id-find n k b [] t h = cc
id-find n k b ((j, c) ∷ m) (g, d, t) h = elim (Bool-cases (str_eq j k)) [
  | inl hit ↦ cc ((eq_iff j k).0 hit, rw hit at h)
  | inr miss ↦ id-find n k b m t (rw miss at h)
]

pub create-Numbered :
    (input : CreateBetInput) (now : ℕ) (r : InMemoryBetRepository)
    → Numbered r
    → Numbered (create input now r).1
unfolding create new_bet
create-Numbered input now r h =
    rw
      (set_key-new (bet_name r.next_id) (new_bet (bet_name r.next_id) input now) r.bets
        (bet_name-unused r.next_id r.bets h))
      (NumberedTable-append (r.next_id + 1) (bet_name r.next_id)
        (new_bet (bet_name r.next_id) input now) r.bets (NumberedTable-later r.next_id r.bets h)
        (r.next_id, refl, omega arith) refl)

NumberedTable-write :
    (n : ℕ) (k : String) (b c : BetRecord) (m : Table)
    → NumberedTable n m
    → get_key k m ≡ some b
    → c.id ≡ b.id
    → NumberedTable n (set_key k c m)
unfolding get_key set_key
NumberedTable-write n k b c [] t h e = cc
NumberedTable-write n k b c ((j, a) ∷ m) (g, d, t) h e = elim (Bool-cases (str_eq j k)) [
  | inl hit ↦ rw hit (g, cc (rw hit at h), t)
  | inr miss ↦ rw miss (g, d, NumberedTable-write n k b c m t (rw miss at h) e)
]

write_found-Numbered :
    (id : String) (input : UpdateBetInput) (o : Option BetRecord) (r : InMemoryBetRepository)
    → get_key id r.bets ≡ o
    → Numbered r
    → Numbered (write_found id input o r).1
unfolding write_found updated
write_found-Numbered id input none r e h = h
write_found-Numbered id input (some b) r e h =
    NumberedTable-write r.next_id id b (updated input b) r.bets h e refl

pub update-Numbered :
    (id : String) (input : UpdateBetInput) (r : InMemoryBetRepository)
    → Numbered r
    → Numbered (update id input r).1
unfolding update
update-Numbered id input r = write_found-Numbered id input (get_key id r.bets) r refl

NumberedTable-delete :
    (n : ℕ) (k : String) (m : Table) → NumberedTable n m → NumberedTable n (delete_key k m)
unfolding delete_key
NumberedTable-delete n k [] t = tt
NumberedTable-delete n k ((j, a) ∷ m) (g, d, t) =
    if_both (NumberedTable n) (str_eq j k) (NumberedTable-delete n k m t)
      (g, d, NumberedTable-delete n k m t)

pub delete-Numbered :
    (id : String) (r : InMemoryBetRepository) → Numbered r → Numbered (delete id r).1
unfolding delete
delete-Numbered id r = NumberedTable-delete r.next_id id r.bets
