-- ===== src/Throttle/Account.antt =====
-- What becomes of every notification under any calls of src/telegram/throttle.ts on one severity.

use text.Mathlib.Text.{◌==◌ as str_eq}
use crash_wave.Prelude.{
  ℕ, ◌+◌, ◌≤◌, ◌<◌, ◌≡◌, sym, ◌∙◌, ap, String, Bool, true, false, List, [], ◌∷◌, ◌++◌, ◌⊎◌, inl,
  inr, if◌then◌else◌, arith, Bool-cases,
}
use crash_wave.Throttle.Channel.{Notification, ThrottlePolicy, Channel, key, has, unseen}

-- How many notifications of a list pass a test.
abbrev pub count : (Notification → Bool) → List Notification → ℕ
count q [] = 0
count q (n ∷ ns) = (if q n then 1 else 0) + count q ns

abbrev pub count_all : (Notification → Bool) → List (List Notification) → ℕ
count_all q [] = 0
count_all q (ns ∷ nss) = count q ns + count_all q nss

-- Those that have left `pending`: sent, dropped, thrown back or in flight.
abbrev pub gone : (Notification → Bool) → Channel → ℕ
gone q c = count q c.sent + count q c.dropped + count q c.thrown + count_all q c.in_flight

abbrev pub same_key : Notification → Notification → Bool
same_key d n = str_eq (key n) (key d)

-- Each has an equal among those that have left.
abbrev pub AllRepeated : Channel → List Notification → Type 0
AllRepeated c [] = Unit
AllRepeated c (d ∷ ds) = (0 < gone (same_key d) c) × AllRepeated c ds

-- Of what was submitted, by any test, all is accounted for: it has left, it is pending, or it is one
-- of some duplicates, and each of those has an equal that has left. There are no duplicates unless
-- the policy drops them.
abbrev pub Accounted : List Notification → Channel → Type 0
Accounted submitted c =
    (ds : List Notification) × ((q : Notification → Bool)
      → count q submitted ≡ gone q c + count q c.pending + count q ds)
    × AllRepeated c ds
    × (c.policy.drop_duplicates ≡ false → ds ≡ [])

pub count-append :
    (q : Notification → Bool) (xs ys : List Notification)
    → count q (xs ++ ys) ≡ count q xs + count q ys
count-append q [] ys = omega arith
count-append q (x ∷ xs) ys = omega (arith, count-append q xs ys)

pub count_all-append :
    (q : Notification → Bool) (xs : List (List Notification)) (ys : List Notification)
    → count_all q (xs ++ ys ∷ []) ≡ count_all q xs + count q ys
count_all-append q [] ys = omega arith
count_all-append q (x ∷ xs) ys = omega (arith, count_all-append q xs ys)

pub AllRepeated-grows :
    (c c' : Channel) (ds : List Notification)
    → ((q : Notification → Bool) → gone q c ≤ gone q c')
    → AllRepeated c ds
    → AllRepeated c' ds
AllRepeated-grows c c' [] g h = tt
AllRepeated-grows c c' (d ∷ ds) g (h, hs) =
    (omega (arith, h, g (same_key d)), AllRepeated-grows c c' ds g hs)

pub AllRepeated-append :
    (c : Channel) (ds es : List Notification)
    → AllRepeated c ds
    → AllRepeated c es
    → AllRepeated c (ds ++ es)
AllRepeated-append c [] es h k = k
AllRepeated-append c (d ∷ ds) es (h, hs) k = (h, AllRepeated-append c ds es hs k)

-- A step that neither loses nor repeats anything, and lets none come back.
pub step-Accounted :
    (subs : List Notification) (c c' : Channel) (added : List Notification)
    → c'.policy ≡ c.policy
    → ((q : Notification → Bool) → gone q c ≤ gone q c')
    → ((q : Notification → Bool)
        → gone q c' + count q c'.pending ≡ gone q c + count q c.pending + count q added)
    → Accounted subs c
    → Accounted (subs ++ added) c'
step-Accounted subs c c' added p g e (ds, f, r, n) = (
  ds,
  (λ q. omega (arith, f q, e q, count-append q subs added)),
  AllRepeated-grows c c' ds g r,
  (λ h. n (ap (λ (x : ThrottlePolicy). x.drop_duplicates) (sym p) ∙ h)),
)

-- A step that submits nothing.
pub moved-Accounted :
    (subs : List Notification) (c c' : Channel)
    → c'.policy ≡ c.policy
    → ((q : Notification → Bool) → gone q c ≤ gone q c')
    → ((q : Notification → Bool) → gone q c' + count q c'.pending ≡ gone q c + count q c.pending)
    → Accounted subs c
    → Accounted subs c'
moved-Accounted subs c c' p g e (ds, f, r, n) = (
  ds,
  (λ q. omega (arith, f q, e q)),
  AllRepeated-grows c c' ds g r,
  (λ h. n (ap (λ (x : ThrottlePolicy). x.drop_duplicates) (sym p) ∙ h)),
)

-- The duplicates that a batch leaves out: each has been seen, or it has an equal in the batch.
abbrev pub Left : List String → List Notification → List Notification → Type 0
Left seen kept [] = Unit
Left seen kept (d ∷ ds) =
    ((has seen (key d) ≡ true) ⊎ (0 < count (same_key d) kept)) × Left seen kept ds

Left-cons :
    (seen : List String) (n : Notification) (kept ds : List Notification)
    → Left (key n ∷ seen) kept ds
    → Left seen (n ∷ kept) ds
unfolding has
Left-cons seen n kept [] h = tt
Left-cons seen n kept (d ∷ ds) (inr k, hs) = (inr (omega (arith, k)), Left-cons seen n kept ds hs)
Left-cons seen n kept (d ∷ ds) (inl k, hs) = (
  elim (Bool-cases (str_eq (key n) (key d))) [
    | inl same ↦ inr (rw same (omega arith))
    | inr other ↦ inl (rw other at k)
  ],
  Left-cons seen n kept ds hs,
)

pub unseen-Left :
    (seen : List String) (ns : List Notification)
    → (ds : List Notification) × ((q : Notification → Bool)
        → count q ns ≡ count q (unseen seen ns) + count q ds)
      × Left seen (unseen seen ns) ds
unfolding unseen
unseen-Left seen [] = ([], (λ q. omega arith), tt)
unseen-Left seen (n ∷ ns) = elim (Bool-cases (has seen (key n))) [
  | inl old ↦
      let (ds, e, l) = unseen-Left seen ns in
      rw old (n ∷ ds, (λ q. omega (arith, e q)), (inl old, l))
  | inr new ↦
      let (ds, e, l) = unseen-Left (key n ∷ seen) ns in
      rw new (ds, (λ q. omega (arith, e q)), Left-cons seen n (unseen (key n ∷ seen) ns) ds l)
]
