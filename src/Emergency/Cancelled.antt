-- ===== src/Emergency/Cancelled.antt =====
-- What the cancellation in src/core/emergency-stop.ts does to the stored bets.
use mathlib.Core.Path.{subst}
use text.Mathlib.Text.{◌==◌ as str_eq}
use text.Mathlib.TextEquality.{eq_iff}
use crash_wave.Prelude.{
  ℕ, ◌⊎◌, ◌≡◌, refl, ◌∙◌, sym, ap, String, Option, none, some, true, false, List, [], ◌∷◌, ◌++◌,
  inl, inr, if_cases,
}
use crash_wave.Betting.Types.{BetState, pending, reserved, failed, Outcome, returned, threw}
use crash_wave.Bets.Types.{BetRecord, is_state}
use crash_wave.Bets.Memory.{updated, state_change}
use crash_wave.Bets.Store.{BetStore, Listed, Has, Written, update_option}
use crash_wave.Emergency.Stop.{
  counted, cancelled_reason, cancel_each, cancel_found, cancel_reserved, cancel_pending_bets,
}

-- The bet is not one that waits to be placed.
abbrev pub Settled : Option BetRecord → Type 0
Settled none = Unit
Settled (some b) = (is_state b.state pending ≡ false) × (is_state b.state reserved ≡ false)

-- A stored bet is as it was, or it waited to be placed and has failed by the stop.
pub data Cancelled (before after : Option BetRecord) : Type 0 where
  left_alone : after ≡ before → Cancelled before after
  cancelled :
      (b c : BetRecord)
      → before ≡ some b
      → (b.state ≡ pending) ⊎ (b.state ≡ reserved)
      → after ≡ some c
      → c.state ≡ failed
      → c.failure_reason ≡ some cancelled_reason
      → Cancelled before after

-- Every bet of a list is stored as listed and waits to be placed.
abbrev Waiting : (String → Option BetRecord) → List BetRecord → Type 0
Waiting look [] = Unit
Waiting look (b ∷ bs) =
    (look b.id ≡ some b) × ((b.state ≡ pending) ⊎ (b.state ≡ reserved)) × Waiting look bs

Listed-Waiting :
    (look : String → Option BetRecord) (st : BetState) (bs : List BetRecord)
    → ((b : BetRecord) → b.state ≡ st → (b.state ≡ pending) ⊎ (b.state ≡ reserved))
    → Listed look st bs
    → Waiting look bs
Listed-Waiting look st [] k h = tt
Listed-Waiting look st (b ∷ bs) k (f, s, h) = (f, k b s, Listed-Waiting look st bs k h)

Waiting-append :
    (look : String → Option BetRecord) (xs ys : List BetRecord)
    → Waiting look xs
    → Waiting look ys
    → Waiting look (xs ++ ys)
Waiting-append look [] ys h k = k
Waiting-append look (x ∷ xs) ys (f, s, h) k = (f, s, Waiting-append look xs ys h k)

pub Has-append_left : (id : String) (xs ys : List BetRecord) → Has id xs → Has id (xs ++ ys)
Has-append_left id [] ys h = elim h [ ]
Has-append_left id (x ∷ xs) ys (inl e) = inl e
Has-append_left id (x ∷ xs) ys (inr h) = inr (Has-append_left id xs ys h)

pub Has-append_right : (id : String) (xs ys : List BetRecord) → Has id ys → Has id (xs ++ ys)
Has-append_right id [] ys h = h
Has-append_right id (x ∷ xs) ys h = inr (Has-append_right id xs ys h)

still_there :
    (before after : Option BetRecord) (b : BetRecord)
    → before ≡ some b
    → Cancelled before after
    → (c : BetRecord) × (after ≡ some c)
still_there before after b e (left_alone h) = (b, h ∙ e)
still_there before after b e (cancelled b' c _ _ h _ _) = (c, h)

module _ {S : Type 0} (repo : BetStore S) where
  next-Cancelled :
      (look0 look1 look2 : String → Option BetRecord) (b : BetRecord)
      (o : Outcome (Option BetRecord)) (j : String)
      → look0 b.id ≡ some b
      → (b.state ≡ pending) ⊎ (b.state ≡ reserved)
      → Cancelled (look0 b.id) (look1 b.id)
      → Cancelled (look0 j) (look1 j)
      → Written look1 b.id (state_change failed (some cancelled_reason)) o look2
      → Cancelled (look0 j) (look2 j)
  unfolding updated
  next-Cancelled look0 look1 look2 b (threw m) j f w own c h =
      subst (Cancelled (look0 j)) (sym (h j)) c
  next-Cancelled look0 look1 look2 b (returned o) j f w own c h =
      let input = state_change failed (some cancelled_reason) in
      let (d, there) = still_there (look0 b.id) (look1 b.id) b f own in
      subst (Cancelled (look0 j)) (sym (h j)) (
        if_cases (Cancelled (look0 j)) (str_eq b.id j)
          (λ (hit : str_eq b.id j ≡ true).
            cancelled b (updated input d)
              (subst (λ (k : String). look0 k ≡ some b) ((eq_iff b.id j).0 hit) f) w
              (ap (update_option input) there) refl refl)
          (λ _. c))

  cancel_each-Cancelled :
      (s0 : S) (bs : List BetRecord) (n : ℕ) (s : S)
      → Waiting (repo.look s0) bs
      → ((j : String) → Cancelled (repo.look s0 j) (repo.look s j))
      → (j : String) → Cancelled (repo.look s0 j) (repo.look (cancel_each repo bs n s).1 j)
  unfolding cancel_each
  cancel_each-Cancelled s0 [] n s w c j = c j
  cancel_each-Cancelled s0 (b ∷ bs) n s (f, k, w) c j =
      let input = state_change failed (some cancelled_reason) in
      let u = repo.update b.id input s in
      cancel_each-Cancelled s0 bs (counted repo u.0 n) u.1 w
        (λ i.
          next-Cancelled (repo.look s0) (repo.look s) (repo.look u.1) b u.0 i f k (c b.id) (c i)
            (repo.written b.id input s))
        j

  reserved-Cancelled :
      (s : S) (ps : List BetRecord) (o : Outcome (List BetRecord)) (j : String)
      → Waiting (repo.look s) ps
      → repo.find_by_state reserved 100 s ≡ o
      → Cancelled (repo.look s j) (repo.look (cancel_reserved repo ps o s).1 j)
  unfolding cancel_reserved
  reserved-Cancelled s ps (threw m) j w e = left_alone refl
  reserved-Cancelled s ps (returned rs) j w e =
      cancel_each-Cancelled s (ps ++ rs) 0 s
        (Waiting-append (repo.look s) ps rs w (
          Listed-Waiting (repo.look s) reserved rs (λ b h. inr h)
            (repo.listed reserved 100 s rs e)))
        (λ i. left_alone refl) j

  pending-Cancelled :
      (s : S) (o : Outcome (List BetRecord)) (j : String)
      → repo.find_by_state pending 100 s ≡ o
      → Cancelled (repo.look s j) (repo.look (cancel_found repo o s).1 j)
  unfolding cancel_found
  pending-Cancelled s (threw m) j e = left_alone refl
  pending-Cancelled s (returned ps) j e =
      reserved-Cancelled s ps (repo.find_by_state reserved 100 s) j
        (Listed-Waiting (repo.look s) pending ps (λ b h. inl h) (repo.listed pending 100 s ps e))
        refl

  pub cancel_pending_bets-Cancelled :
      (s : S) (j : String) → Cancelled (repo.look s j) (repo.look (cancel_pending_bets repo s).1 j)
  unfolding cancel_pending_bets
  cancel_pending_bets-Cancelled s j = pending-Cancelled s (repo.find_by_state pending 100 s) j refl
