-- ===== src/EventLog/Last.antt =====
-- Which entries the log of src/core/event-bus/persistent-log.ts keeps.
use mathlib.Core.Path.{subst}
use crash_wave.Prelude.{
  ℕ, zero, suc, min, ◌+◌, ◌-◌, ◌≤◌, ◌<◌, ◌≡◌, refl, sym, ◌∙◌, ap, false, List, [], ◌∷◌, ◌++◌,
  length, drop, drop-nil, drop-drop, length-drop, length-append, ltb, if_cases, arith,
}
use crash_wave.EventLog.Log.{
  PersistentLogEntry, InMemoryPersistentLog, new_log, slice_last, write, clear, size,
}

pub data LogCall (P : Type 0) : Type 0 where
  writing : PersistentLogEntry P → LogCall P
  clearing : LogCall P

module _ {P : Type 0} where
  unfoldable pub apply : LogCall P → InMemoryPersistentLog P → InMemoryPersistentLog P
  unfolding write
  apply (writing e) l = write e l
  apply clearing l = clear l

  abbrev pub apply_all : List (LogCall P) → InMemoryPersistentLog P → InMemoryPersistentLog P
  apply_all [] l = l
  apply_all (c ∷ cs) l = apply_all cs (apply c l)

  -- Everything that was written since the last time the log was cleared, after `es`.
  abbrev pub written_since :
      List (LogCall P) → List (PersistentLogEntry P) → List (PersistentLogEntry P)
  written_since [] es = es
  written_since (writing e ∷ cs) es = written_since cs (es ++ e ∷ [])
  written_since (clearing ∷ cs) es = written_since cs []

  drop-append :
      (n : ℕ) (xs ys : List (PersistentLogEntry P))
      → n ≤ length xs
      → drop n (xs ++ ys) ≡ drop n xs ++ ys
  drop-append zero xs ys h = refl
  drop-append (suc n) [] ys h = absurd (omega (arith, h))
  drop-append (suc n) (x ∷ xs) ys h = drop-append n xs ys (omega (arith, h))

  -- The log keeps the last entries of a history; one more entry is written.
  abbrev Keeps : ℕ → List (PersistentLogEntry P) → InMemoryPersistentLog P → Type 0
  Keeps n es l = (l.max_entries ≡ n) × (l.entries ≡ slice_last n es)

  dropped :
      (k : ℕ) (es : List (PersistentLogEntry P)) (e : PersistentLogEntry P)
      → k ≤ length es
      → length (drop k es ++ e ∷ []) ≡ length es - k + 1
  dropped k es e h = omega (arith, h, length-append (drop k es) (e ∷ []), length-drop k es)

  write-slice :
      (n : ℕ) (e : PersistentLogEntry P) (es : List (PersistentLogEntry P))
      → Keeps n (es ++ e ∷ []) (write e (record { entries = slice_last n es; max_entries = n }))
  unfolding write
  write-slice zero e es =
      if_cases (Keeps zero (es ++ e ∷ [])) (ltb zero (length (es ++ e ∷ []))) (λ _. (refl, refl))
        (λ _. (refl, refl))
  write-slice (suc n) e es =
      let k = length es - suc n in
      let pushed = drop k es ++ e ∷ [] in
      let push = sym (drop-append k es (e ∷ []) (omega arith)) in
      let l = length-append es (e ∷ []) in
      let d = dropped k es e (omega arith) in
      if_cases (Keeps (suc n) (es ++ e ∷ [])) (ltb (suc n) (length pushed))
        (λ _. (
          refl,
          ap (drop (length pushed - suc n)) push
              ∙ drop-drop (length pushed - suc n) k (es ++ e ∷ [])
              ∙ ap (λ (m : ℕ). drop m (es ++ e ∷ [])) (omega (arith, l, d)),
        ))
        (λ f. (
          refl,
          push
              ∙ ap (λ (m : ℕ). drop m (es ++ e ∷ []))
                  (omega (arith, l, d, not_less (suc n) (length pushed) f)),
        ))
    where
      not_less : (m n : ℕ) → ltb m n ≡ false → n ≤ m
      not_less m n e = ground arith

  write-Keeps :
      (n : ℕ) (e : PersistentLogEntry P) (es : List (PersistentLogEntry P))
      (l : InMemoryPersistentLog P)
      → Keeps n es l
      → Keeps n (es ++ e ∷ []) (write e l)
  write-Keeps n e es l (m, k) =
      subst
        (λ (xs : List (PersistentLogEntry P)).
          Keeps n (es ++ e ∷ []) (write e (record { entries = xs; max_entries = l.max_entries })))
        (sym k)
        (subst
          (λ (j : ℕ).
            Keeps n (es ++ e ∷ [])
              (write e (record { entries = slice_last n es; max_entries = j })))
          (sym m) (write-slice n e es))

  clear-Keeps : (n : ℕ) (l : InMemoryPersistentLog P) → l.max_entries ≡ n → Keeps n [] (clear l)
  clear-Keeps zero l h = (h, refl)
  clear-Keeps (suc n) l h = (h, sym (drop-nil (zero - suc n)))

  all-Keeps :
      (n : ℕ) (cs : List (LogCall P)) (es : List (PersistentLogEntry P))
      (l : InMemoryPersistentLog P)
      → Keeps n es l
      → Keeps n (written_since cs es) (apply_all cs l)
  unfolding apply
  all-Keeps n [] es l h = h
  all-Keeps n (writing e ∷ cs) es l h =
      all-Keeps n cs (es ++ e ∷ []) (write e l) (write-Keeps n e es l h)
  all-Keeps n (clearing ∷ cs) es l h = all-Keeps n cs [] (clear l) (clear-Keeps n l h.0)

-- A new log with room for n entries, at least one, holds after any calls the last n of the entries
-- that were written since it was last cleared, in their order, and all of them if there are fewer.
pub apply_all-last :
    {P : Type 0} (n : ℕ) (cs : List (LogCall P))
    → 0 < n
    → let es = written_since cs [] in
      let l = apply_all cs (new_log n) in
      (l.entries ≡ drop (length es - n) es) × (size l ≡ min n (length es))
apply_all-last {P} zero cs h = absurd (omega (arith, h))
apply_all-last {P} (suc n) cs h =
    let es = written_since cs [] in
    let k = all-Keeps (suc n) cs [] (new_log (suc n)) (refl, sym (drop-nil (zero - suc n))) in
    (k.1, ap length k.1 ∙ length-drop (length es - suc n) es ∙ omega arith)
