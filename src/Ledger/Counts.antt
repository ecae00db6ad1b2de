-- ===== src/Ledger/Counts.antt =====
-- How many entries of daily-entries.ts have a status, and how an update changes that.
use Prim.Native.Nat.{ℕ, ◌+◌}
use crash_wave.Prelude.{
  ◌≡◌, refl, ap, sym, or_else, ◌≤◌, Bool, true, some, List, [], ◌∷◌, arith, find, Bool-cases, inl,
  inr,
}
use crash_wave.Ledger.Types.{
  EntrySlotStatus, reserved, confirmed, released, failed, DailyEntryRecord, update_found,
  insert_entry,
}

-- 1 for two equal statuses, or else 0.
abbrev pub is_at : EntrySlotStatus → EntrySlotStatus → ℕ
is_at reserved reserved = 1
is_at confirmed confirmed = 1
is_at released released = 1
is_at failed failed = 1
is_at _ _ = 0

abbrev pub count : EntrySlotStatus → List DailyEntryRecord → ℕ
count s [] = 0
count s (e ∷ es) = is_at s e.status + count s es

pub count-insert :
    (s : EntrySlotStatus) (e : DailyEntryRecord) (es : List DailyEntryRecord)
    → count s (insert_entry e es) ≡ is_at s e.status + count s es
count-insert s e [] = refl
count-insert s e (d ∷ es) = omega (arith, count-insert s e es)

-- The row that was found changes its status, and no other row does.
pub count-update :
    (s : EntrySlotStatus) (p : DailyEntryRecord → Bool) (f : DailyEntryRecord → DailyEntryRecord)
    (es : List DailyEntryRecord) (e : DailyEntryRecord)
    → find p es ≡ some e
    → is_at s e.status + count s (update_found p f es) ≡ is_at s (f e).status + count s es
unfolding update_found
count-update s p f [] e h = cc
count-update s p f (d ∷ es) e h = elim (Bool-cases (p d)) [
  | inl hit ↦ rw hit (rw (found hit) (omega arith))
  | inr miss ↦ rw miss (omega (arith, count-update s p f es e (rw miss at h)))
]
  where
    found : p d ≡ true → e ≡ d
    found hit = ap (λ o. or_else o d) (sym (rw hit at h))

-- A found element passes the search's test.
pub find-passes :
    (p : DailyEntryRecord → Bool) (es : List DailyEntryRecord) (e : DailyEntryRecord)
    → find p es ≡ some e
    → p e ≡ true
find-passes p [] e h = cc
find-passes p (d ∷ es) e h = elim (Bool-cases (p d)) [
  | inl hit ↦ rw (ap (λ o. or_else o d) (sym (rw hit at h))) hit
  | inr miss ↦ find-passes p es e (rw miss at h)
]

-- A found row is one of those that are counted.
pub count-found :
    (s : EntrySlotStatus) (p : DailyEntryRecord → Bool) (es : List DailyEntryRecord)
    (e : DailyEntryRecord)
    → find p es ≡ some e
    → is_at s e.status ≤ count s es
count-found s p [] e h = cc
count-found s p (d ∷ es) e h = elim (Bool-cases (p d)) [
  | inl hit ↦ rw (ap (λ o. or_else o d) (sym (rw hit at h))) (omega arith)
  | inr miss ↦ omega (arith, count-found s p es e (rw miss at h))
]
