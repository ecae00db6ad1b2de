-- ===== src/Utils/MutexRefinement.antt =====
-- The Mutex of src/utils/async.ts against its Semaphore of one permit.
use mathlib.Core.Path.{subst}
use crash_wave.Prelude.{
  ℕ, zero, suc, ◌+◌, ◌≤◌, ◌≡◌, refl, sym, ◌∙◌, ap, Bool, true, false, List, [], ◌∷◌, ◌++◌, length,
  arith, ◌==◌,
}
use crash_wave.Utils.Locks.{
  Semaphore, acquire_in, acquire, remove, hand_over, release, Mutex, lock_in, acquire_mutex,
  unlock_in, release_mutex,
}
use crash_wave.Utils.Fairness.{
  LockCall, acquire_call, release_call, run_calls, holds, Owned, Counted, acquire-Counted,
  release-Counted,
}

-- The mutex is locked exactly when the permit is taken, and the same tasks wait.
abbrev pub Refines : Mutex → Semaphore → Type 0
Refines m s = (m.locked ≡ (s.permits == 0)) × (m.queue ≡ s.queue)

abbrev pub apply_mutex : LockCall → Mutex → Mutex
apply_mutex (acquire_call t) m = acquire_mutex t m
apply_mutex (release_call t) m = release_mutex m

abbrev pub run_mutex : List LockCall → Mutex → Mutex
run_mutex [] m = m
run_mutex (c ∷ cs) m = run_mutex cs (apply_mutex c m)

acquire-Refines :
    (b : Bool) (p t : ℕ) (m : Mutex) (s : Semaphore)
    → m.locked ≡ b
    → s.permits ≡ p
    → p ≤ 1
    → Refines m s
    → Refines (lock_in b t m) (acquire_in p t s)
unfolding lock_in acquire_in
acquire-Refines true zero t m s e f l (h, q) = (h, ap (λ (w : List ℕ). w ++ t ∷ []) q)
acquire-Refines false zero t m s e f l (h, q) = ground arith
acquire-Refines true (suc p) t m s e f l (h, q) = ground arith
acquire-Refines false (suc p) t m s e f l (h, q) = (ground arith, q)

release-Refines :
    (q o : List ℕ) (m : Mutex) (s : Semaphore)
    → m.queue ≡ q
    → s.queue ≡ q
    → s.permits ≡ 0
    → Refines m s
    → Refines (unlock_in q m) (hand_over q o s)
unfolding unlock_in hand_over
release-Refines [] o m s e f z (h, _) = (ground arith, e ∙ sym f)
release-Refines (next ∷ rest) o m s e f z (h, _) = (h, refl)

taken :
    (t : ℕ) (s : Semaphore) (xs : List ℕ)
    → holds t xs ≡ true
    → s.permits + length xs ≡ 1
    → s.permits ≡ 0
taken t s [] h c = cc
taken t s (x ∷ xs) h c = omega arith

-- A mutex refines a semaphore of one permit: through any calls in which every release is made by
-- the task that holds the permit, the mutex is locked exactly when the permit is taken, and the same
-- tasks wait in the same order.
pub run_mutex-Refines :
    (cs : List LockCall) (m : Mutex) (s : Semaphore)
    → Owned cs s
    → Counted 1 s
    → Refines m s
    → Refines (run_mutex cs m) (run_calls cs s)
unfolding acquire release acquire_mutex release_mutex
run_mutex-Refines [] m s o c h = h
run_mutex-Refines (acquire_call t ∷ cs) m s o c h =
    run_mutex-Refines cs (acquire_mutex t m) (acquire t s) o
      (acquire-Counted 1 s.permits t s refl c)
      (acquire-Refines m.locked s.permits t m s refl refl (omega arith) h)
run_mutex-Refines (release_call t ∷ cs) m s (k, o) c h =
    run_mutex-Refines cs (release_mutex m) (release t s) o (release-Counted 1 t s.queue s refl k c)
      (subst (λ (q : List ℕ). Refines (unlock_in q m) (release t s)) (sym h.1)
        (release-Refines s.queue (remove t s.holders) m s h.1 refl (taken t s s.holders k c.0) h))
