-- ===== src/Betting/Expiry.antt =====
-- Which records `InMemoryIdempotencyStore` of idempotency.ts keeps while its timer fires.
use mathlib.Core.Path.{subst}
use text.Mathlib.Text.{◌==◌ as str_eq}
use text.Mathlib.TextEquality.{eq_iff}
use crash_wave.Prelude.{
  ℕ, ◌+◌, ◌≤◌, ◌≡◌, refl, sym, ◌∙◌, ap, true, false, Option, none, some, String, List, [], ◌∷◌,
  is_some, get_key, get-set, get-set_key, if_cases, arith, Bool-cases, inl, inr,
}
use crash_wave.Betting.Types.{BetPlacementResult, IdempotencyStatus, IdempotencyRecord}
use crash_wave.Betting.Idempotency.{
  Records, generate_key, get_record, reserve_key, mark_found, has_expired, cleanup, cleanups,
  TimedRecords, sweep, timed_store,
}
use crash_wave.Betting.Preserves.{Keeps}

-- A record that does not expire before a time.
abbrev pub LastsTo : ℕ → Option ℕ → Type 0
LastsTo t none = Unit
LastsTo t (some e) = t ≤ e

abbrev pub RecordLasts : ℕ → Option IdempotencyRecord → Type 0
RecordLasts t none = ⊥
RecordLasts t (some c) = LastsTo t c.expires_at

abbrev pub KeyLasts : ℕ → String → Records → Type 0
KeyLasts t k m = RecordLasts t (get_key k m)

pub RecordLasts-is_some :
    (t : ℕ) (o : Option IdempotencyRecord) → RecordLasts t o → is_some o ≡ true
RecordLasts-is_some t none h = absurd h
RecordLasts-is_some t (some c) h = refl

KeyLasts-mark_found :
    (t : ℕ) (k j : String) (v : IdempotencyStatus) (b : BetPlacementResult)
    (o : Option IdempotencyRecord) (m : Records)
    → get_key j m ≡ o
    → KeyLasts t k m
    → KeyLasts t k (mark_found v b j o m)
unfolding mark_found
KeyLasts-mark_found t k j v b none m e h = h
KeyLasts-mark_found t k j v b (some c) m e h =
    let c' = record c { status = v; result = some b } in
    subst (RecordLasts t) (sym (get-set j k c' m)) (
      if_cases (RecordLasts t) (str_eq j k)
        (λ (same : str_eq j k ≡ true).
          subst (RecordLasts t) (ap (λ (x : String). get_key x m) (sym ((eq_iff j k).0 same)) ∙ e)
            h)
        (λ _. h))

KeyLasts-reserve_key :
    (t now : ℕ) (k s r b : String) (o : Option IdempotencyRecord) (m : Records)
    → get_record s r m ≡ o
    → KeyLasts t k m
    → KeyLasts t k (reserve_key now s r b o m).1
unfolding reserve_key
KeyLasts-reserve_key t now k s r b (some c) m e h = h
KeyLasts-reserve_key t now k s r b none m e h =
    let j = generate_key s r in
    subst (RecordLasts t) (sym (get-set j k _ m)) (
      if_cases (RecordLasts t) (str_eq j k)
        (λ (same : str_eq j k ≡ true). absurd (
          subst (RecordLasts t) (ap (λ (x : String). get_key x m) (sym ((eq_iff j k).0 same)) ∙ e)
            h))
        (λ _. h))

pub KeyLasts-reserved :
    (now : ℕ) (s r b : String) (o : Option IdempotencyRecord) (m : Records)
    → o ≡ none
    → KeyLasts (now + 300000) (generate_key s r) (reserve_key now s r b o m).1
unfolding reserve_key
KeyLasts-reserved now s r b (some c) m e = absurd (ground (arith, e))
KeyLasts-reserved now s r b none m e =
    subst (RecordLasts (now + 300000)) (sym (get-set_key (generate_key s r) _ m)) (omega arith)

lasting : (t now : ℕ) (e : Option ℕ) → LastsTo t e → now ≤ t → has_expired now e ≡ false
lasting t now none h l = refl
lasting t now (some e) h l = ground arith

KeyLasts-cleanup :
    (t now : ℕ) (k : String) (m : Records) → now ≤ t → KeyLasts t k m → KeyLasts t k (cleanup now m)
unfolding cleanup get_key
KeyLasts-cleanup t now k [] l h = h
KeyLasts-cleanup t now k ((i, c) ∷ m) l h =
    let ih = λ (q : KeyLasts t k m). KeyLasts-cleanup t now k m l q in
    elim (Bool-cases (str_eq i k)) [
      | inl same ↦
          let h' : LastsTo t c.expires_at = rw same at h in
          rw (lasting t now c.expires_at h' l, same) h'
      | inr other ↦
          let rest : KeyLasts t k (cleanup now m) = ih (rw other at h) in
          elim (Bool-cases (has_expired now c.expires_at)) [
            | inl gone ↦ rw gone rest
            | inr kept ↦ rw (kept, other) rest
          ]
    ]

-- Every cleanup of a list comes no later than a time.
abbrev pub NoLater : ℕ → List ℕ → Type 0
NoLater t [] = Unit
NoLater t (x ∷ xs) = (x ≤ t) × NoLater t xs

abbrev pub AllNoLater : ℕ → List (List ℕ) → Type 0
AllNoLater t [] = Unit
AllNoLater t (xs ∷ fired) = NoLater t xs × AllNoLater t fired

KeyLasts-cleanups :
    (t : ℕ) (ts : List ℕ) (k : String) (m : Records)
    → NoLater t ts
    → KeyLasts t k m
    → KeyLasts t k (cleanups ts m)
unfolding cleanups
KeyLasts-cleanups t [] k m l h = h
KeyLasts-cleanups t (x ∷ xs) k m (l, ls) h =
    KeyLasts-cleanups t xs k (cleanup x m) ls (KeyLasts-cleanup t x k m l h)

none-cleanup :
    (now : ℕ) (k : String) (m : Records) → get_key k m ≡ none → get_key k (cleanup now m) ≡ none
unfolding cleanup get_key
none-cleanup now k [] h = h
none-cleanup now k ((i, c) ∷ m) h = elim (Bool-cases (str_eq i k)) [
  | inl same ↦ let found : some c ≡ none = rw same at h in cc
  | inr other ↦
      let rest : get_key k (cleanup now m) ≡ none = none-cleanup now k m (rw other at h) in
      elim (Bool-cases (has_expired now c.expires_at)) [
        | inl gone ↦ rw gone rest
        | inr kept ↦ rw (kept, other) rest
      ]
]

none-cleanups :
    (ts : List ℕ) (k : String) (m : Records) → get_key k m ≡ none → get_key k (cleanups ts m) ≡ none
unfolding cleanups
none-cleanups [] k m h = h
none-cleanups (x ∷ xs) k m h = none-cleanups xs k (cleanup x m) (none-cleanup x k m h)

-- The key's record lasts to a time, and the timer fires no later.
abbrev pub Timely : ℕ → String → TimedRecords → Type 0
Timely t k (m, fired) = KeyLasts t k m × AllNoLater t fired

pub sweep-Timely : (t : ℕ) (k : String) (m : TimedRecords) → Timely t k m → Timely t k (sweep m)
sweep-Timely t k (m, []) h = h
sweep-Timely t k (m, ts ∷ fired) (h, (l, ls)) = (KeyLasts-cleanups t ts k m l h, ls)

pub sweep-none :
    (t : ℕ) (k : String) (m : TimedRecords)
    → get_key k m.0 ≡ none
    → AllNoLater t m.1
    → (get_key k (sweep m).0 ≡ none) × AllNoLater t (sweep m).1
sweep-none t k (m, []) h l = (h, l)
sweep-none t k (m, ts ∷ fired) h (l, ls) = (none-cleanups ts k m h, ls)

pub Timely-keeps : (t now : ℕ) (k : String) → Keeps TimedRecords (timed_store now) (Timely t k)
Timely-keeps t now k = record {
  reserve_keeps = λ s r b m h.
      let (l, ls) = sweep-Timely t k m h in
      (KeyLasts-reserve_key t now k s r b (get_record s r (sweep m).0) (sweep m).0 refl l, ls);
  complete_keeps = λ s r b m h. marks s r IdempotencyStatus.completed b m h;
  fail_keeps = λ s r e m h. marks s r IdempotencyStatus.failed _ m h;
  mark_unknown_keeps = λ s r e m h. marks s r IdempotencyStatus.unknown _ m h;
}
  where
    marks :
        (s r : String) (v : IdempotencyStatus) (b : BetPlacementResult) (m : TimedRecords)
        → Timely t k m
        → Timely t k (
          mark_found v b (generate_key s r) (get_record s r (sweep m).0) (sweep m).0,
          (sweep m).1,
        )
    marks s r v b m h =
        let (l, ls) = sweep-Timely t k m h in
        (
          KeyLasts-mark_found t k (generate_key s r) v b (get_record s r (sweep m).0) (sweep m).0
              refl l,
          ls,
        )
