-- ===== src/Bets/Lookup.antt =====
-- What InMemoryBetRepository finds after it has written.
use text.Mathlib.Text.{◌==◌ as str_eq}
use crash_wave.Prelude.{
  ℕ, ◌+◌, ◌≡◌, refl, ◌∙◌, ap, String, Option, none, some, [], ◌∷◌, length, get_key, arith,
  set_key-new, get-set, length-set_key, length-append, if◌then◌else◌,
}
use crash_wave.Bets.Types.{BetRecord, CreateBetInput, UpdateBetInput}
use crash_wave.Bets.Memory.{
  InMemoryBetRepository, bet_name, new_bet, create, updated, write_found, update, find_by_id, count,
}
use crash_wave.Bets.Numbering.{Numbered, bet_name-unused}

-- In a repository whose keys it gave out itself, a new bet gets an identifier that found nothing
-- before; from then on it finds the bet, every other identifier finds what it found, and one more
-- bet is counted.
pub create-find_by_id :
    (input : CreateBetInput) (now : ℕ) (r : InMemoryBetRepository)
    → Numbered r
    → (find_by_id (create input now r).0.id r ≡ none)
      × ((j : String)
          → find_by_id j (create input now r).1 ≡ (
              if str_eq (create input now r).0.id j
              then some (create input now r).0
              else find_by_id j r))
      × (count (create input now r).1 ≡ count r + 1)
unfolding create new_bet find_by_id count
create-find_by_id input now r n =
    let k = bet_name r.next_id in
    let b = new_bet k input now in
    let unused = bet_name-unused r.next_id r.bets n in
    (
      unused,
      λ j. get-set k j b r.bets,
      ap length (set_key-new k b r.bets unused) ∙ length-append r.bets ((k, b) ∷ []) ∙ omega arith,
    )

abbrev pub WrittenAt :
    String
    → UpdateBetInput
    → Option BetRecord
    → Option BetRecord × InMemoryBetRepository
    → InMemoryBetRepository
    → Type 0
WrittenAt id input none w r = (w.0 ≡ none) × (w.1 ≡ r)
WrittenAt id input (some b) w r =
    (w.0 ≡ some (updated input b))
    × ((j : String)
        → find_by_id j w.1 ≡ (if str_eq id j then some (updated input b) else find_by_id j r))
    × (count w.1 ≡ count r)

write_found-WrittenAt :
    (id : String) (input : UpdateBetInput) (o : Option BetRecord) (r : InMemoryBetRepository)
    → get_key id r.bets ≡ o
    → WrittenAt id input o (write_found id input o r) r
unfolding write_found find_by_id count
write_found-WrittenAt id input none r e = (refl, refl)
write_found-WrittenAt id input (some b) r e = (
  refl,
  λ j. get-set id j (updated input b) r.bets,
  length-set_key id (updated input b) b r.bets e,
)

-- An update of an unknown identifier returns null and changes nothing. Any other returns the bet
-- with the fields that were given, the identifier finds it from then on, every other identifier
-- finds what it found, and the number of bets stays.
pub update-find_by_id :
    (id : String) (input : UpdateBetInput) (r : InMemoryBetRepository)
    → WrittenAt id input (find_by_id id r) (update id input r) r
unfolding update find_by_id
update-find_by_id id input r = write_found-WrittenAt id input (get_key id r.bets) r refl
