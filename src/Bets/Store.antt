-- ===== src/Bets/Store.antt =====
-- What the clients of BetRepository in src/persistence/repositories/bet-repo.ts rely on: its
-- operations, which may throw, and the contents that they read and write.
use text.Mathlib.Text.{◌==◌ as str_eq}
use crash_wave.Prelude.{
  ℕ, ◌<◌, ◌⊎◌, length, ◌≡◌, String, Option, none, some, List, [], ◌∷◌, if◌then◌else◌,
}
use crash_wave.Betting.Types.{BetState, Outcome, returned, threw}
use crash_wave.Bets.Types.{BetRecord, UpdateBetInput}
use crash_wave.Bets.Memory.{updated}

abbrev pub update_option : UpdateBetInput → Option BetRecord → Option BetRecord
update_option input none = none
update_option input (some b) = some (updated input b)

-- Every bet of a list is stored as it is listed, in the state that was asked for.
abbrev pub Listed : (String → Option BetRecord) → BetState → List BetRecord → Type 0
Listed look st [] = Unit
Listed look st (b ∷ bs) = (look b.id ≡ some b) × (b.state ≡ st) × Listed look st bs

-- Some bet of a list has the identifier.
abbrev pub Has : String → List BetRecord → Type 0
Has id [] = ⊥
Has id (b ∷ bs) = (b.id ≡ id) ⊎ Has id bs

-- What an update leaves: a call that throws has written nothing.
abbrev pub Written :
    (String → Option BetRecord)
    → String
    → UpdateBetInput
    → Outcome (Option BetRecord)
    → (String → Option BetRecord)
    → Type 0
Written look id input (returned o) look' =
    (j : String) → look' j ≡ (if str_eq id j then update_option input (look id) else look j)
Written look id input (threw e) look' = (j : String) → look' j ≡ look j

pub record BetStore (S : Type 0) : Type 0 where
  pub look : S → String → Option BetRecord
  pub find_by_id : String → S → Outcome (Option BetRecord)
  pub find_by_state : BetState → ℕ → S → Outcome (List BetRecord)
  pub find_active_bets : S → Outcome (List BetRecord)
  pub update : String → UpdateBetInput → S → Outcome (Option BetRecord) × S
  pub found :
      (id : String) (s : S) (o : Option BetRecord) → find_by_id id s ≡ returned o → o ≡ look s id
  pub listed :
      (st : BetState) (limit : ℕ) (s : S) (bs : List BetRecord)
      → find_by_state st limit s ≡ returned bs
      → Listed (look s) st bs
  -- A list that is shorter than its limit leaves none out.
  pub all_listed :
      (st : BetState) (limit : ℕ) (s : S) (bs : List BetRecord) (id : String) (b : BetRecord)
      → find_by_state st limit s ≡ returned bs
      → length bs < limit
      → look s id ≡ some b
      → b.state ≡ st
      → Has id bs
  pub written :
      (id : String) (input : UpdateBetInput) (s : S)
      → Written (look s) id input (update id input s).0 (look (update id input s).1)
