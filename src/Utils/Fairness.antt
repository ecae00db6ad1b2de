-- ===== src/Utils/Fairness.antt =====
-- Any sequence of calls of the Semaphore and the Mutex of src/utils/async.ts.

use mathlib.Core.List.{append-nil, append_assoc}
use crash_wave.Prelude.{
  ℕ, zero, suc, ◌+◌, ◌≡◌, refl, sym, ◌∙◌, ap, ◌⊎◌, inl, inr, Bool, true, false, List, [], ◌∷◌, ◌++◌,
  length, if◌then◌else◌, arith, ◌==◌,
}
use crash_wave.Utils.Locks.{Semaphore, acquire_in, acquire, remove, hand_over, release}

pub data LockCall : Type 0 where
  acquire_call release_call : ℕ → LockCall

abbrev pub apply : LockCall → Semaphore → Semaphore
apply (acquire_call t) s = acquire t s
apply (release_call t) s = release t s

abbrev pub run_calls : List LockCall → Semaphore → Semaphore
run_calls [] s = s
run_calls (c ∷ cs) s = run_calls cs (apply c s)

abbrev pub holds : ℕ → List ℕ → Bool
holds t [] = false
holds t (x ∷ xs) = if x == t then true else holds t xs

-- Every release is made by a task that holds a permit at that moment.
abbrev pub Owned : List LockCall → Semaphore → Type 0
Owned [] s = Unit
Owned (acquire_call t ∷ cs) s = Owned cs (acquire t s)
Owned (release_call t ∷ cs) s = (holds t s.holders ≡ true) × Owned cs (release t s)

-- The permits and the holders together are `n`, and no task waits beside a free permit.
abbrev pub Counted : ℕ → Semaphore → Type 0
Counted n s = (s.permits + length s.holders ≡ n) × ((s.permits ≡ 0) ⊎ (s.queue ≡ []))

pub acquire-Counted :
    (n p t : ℕ) (s : Semaphore) → s.permits ≡ p → Counted n s → Counted n (acquire_in p t s)
unfolding acquire_in
acquire-Counted n zero t s e (c, b) = (c, inl e)
acquire-Counted n (suc p) t s e (c, inl z) = absurd (omega arith)
acquire-Counted n (suc p) t s e (c, inr q) = (omega arith, inr q)

length-remove : (t : ℕ) (xs : List ℕ) → holds t xs ≡ true → length (remove t xs) + 1 ≡ length xs
unfolding remove
length-remove t [] h = cc
length-remove t (x ∷ xs) h = ground (arith, length-remove t xs)

pub release-Counted :
    (n t : ℕ) (q : List ℕ) (s : Semaphore)
    → s.queue ≡ q
    → holds t s.holders ≡ true
    → Counted n s
    → Counted n (hand_over q (remove t s.holders) s)
unfolding hand_over
release-Counted n t [] s e h (c, b) = (omega (arith, length-remove t s.holders h), inr e)
release-Counted n t (next ∷ rest) s e h (c, inl z) =
    (omega (arith, length-remove t s.holders h), inl z)
release-Counted n t (next ∷ rest) s e h (c, inr q) = absurd (no_tail (sym e ∙ q))
  where
    no_tail : next ∷ rest ≡ [] → ⊥
    no_tail h = cc

-- When every release is made by a task that holds a permit, a semaphore of `n` permits never has
-- more than `n` holders: the permits and the holders together stay `n`, and no task waits beside a
-- free permit.
pub run_calls-Counted :
    (n : ℕ) (cs : List LockCall) (s : Semaphore)
    → Owned cs s
    → Counted n s
    → Counted n (run_calls cs s)
unfolding acquire release
run_calls-Counted n [] s o h = h
run_calls-Counted n (acquire_call t ∷ cs) s o h =
    run_calls-Counted n cs (acquire t s) o (acquire-Counted n s.permits t s refl h)
run_calls-Counted n (release_call t ∷ cs) s (k, o) h =
    run_calls-Counted n cs (release t s) o (release-Counted n t s.queue s refl k h)

-- The tasks that ask for a permit, in order.
abbrev pub arrivals : List LockCall → List ℕ
arrivals [] = []
arrivals (acquire_call t ∷ cs) = t ∷ arrivals cs
arrivals (release_call t ∷ cs) = arrivals cs

-- The task that a call gives a permit to.
abbrev granted_free : ℕ → ℕ → List ℕ
granted_free zero t = []
granted_free (suc p) t = t ∷ []

abbrev granted_first : List ℕ → List ℕ
granted_first [] = []
granted_first (next ∷ rest) = next ∷ []

abbrev granted_by : LockCall → Semaphore → List ℕ
granted_by (acquire_call t) s = granted_free s.permits t
granted_by (release_call t) s = granted_first s.queue

-- The tasks that get a permit, in order.
abbrev pub grants : List LockCall → Semaphore → List ℕ
grants [] s = []
grants (c ∷ cs) s = granted_by c s ++ grants cs (apply c s)

acquire-order :
    (p t : ℕ) (s : Semaphore)
    → s.permits ≡ p
    → (s.permits ≡ 0) ⊎ (s.queue ≡ [])
    → granted_free p t ++ (acquire_in p t s).queue ≡ s.queue ++ t ∷ []
unfolding acquire_in
acquire-order zero t s e b = refl
acquire-order (suc p) t s e (inl z) = absurd (omega arith)
acquire-order (suc p) t s e (inr q) = rw q refl

release-order :
    (q others : List ℕ) (s : Semaphore)
    → s.queue ≡ q
    → granted_first q ++ (hand_over q others s).queue ≡ q
unfolding hand_over
release-order [] others s e = e
release-order (next ∷ rest) others s e = refl

-- First come, first served: when every release is made by a task that holds a permit, the tasks
-- that get one and those that wait are, in order, those that waited before and those that ask.
pub run_calls-order :
    (n : ℕ) (cs : List LockCall) (s : Semaphore)
    → Owned cs s
    → Counted n s
    → grants cs s ++ (run_calls cs s).queue ≡ s.queue ++ arrivals cs
unfolding acquire release
run_calls-order n [] s o h = sym (append-nil s.queue)
run_calls-order n (acquire_call t ∷ cs) s o h =
    let s' = acquire t s in
    let g = granted_free s.permits t in
    append_assoc g (grants cs s') (run_calls cs s').queue
    ∙ ap (λ (q : List ℕ). g ++ q)
        (run_calls-order n cs s' o (acquire-Counted n s.permits t s refl h))
    ∙ sym (append_assoc g s'.queue (arrivals cs))
    ∙ ap (λ (q : List ℕ). q ++ arrivals cs) (acquire-order s.permits t s refl h.1)
    ∙ append_assoc s.queue (t ∷ []) (arrivals cs)
run_calls-order n (release_call t ∷ cs) s (k, o) h =
    let s' = release t s in
    let g = granted_first s.queue in
    append_assoc g (grants cs s') (run_calls cs s').queue
    ∙ ap (λ (q : List ℕ). g ++ q)
        (run_calls-order n cs s' o (release-Counted n t s.queue s refl k h))
    ∙ sym (append_assoc g s'.queue (arrivals cs))
    ∙ ap (λ (q : List ℕ). q ++ arrivals cs) (release-order s.queue (remove t s.holders) s refl)
