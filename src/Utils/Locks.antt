-- ===== src/Utils/Locks.antt =====
-- Mutex, Semaphore and promisePool of src/utils/async.ts. A waiting `acquire` is the task that made
-- it; `holders` are the tasks that have acquired and not released, which the code does not record.
use crash_wave.Prelude.{
  ℕ, zero, suc, ◌+◌, Bool, true, false, List, [], ◌∷◌, ◌++◌, if◌then◌else◌, ◌==◌,
}

pub record Semaphore : Type 0 where
  pub permits : ℕ
  pub queue : List ℕ
  pub holders : List ℕ

-- By the number of permits: the task holds one, or waits at the end of the queue.
unfoldable pub acquire_in : ℕ → ℕ → Semaphore → Semaphore
acquire_in zero t s = record s { queue = s.queue ++ t ∷ [] }
acquire_in (suc p) t s = record s { permits = p; holders = t ∷ s.holders }

unfoldable pub acquire : ℕ → Semaphore → Semaphore
unfolding acquire_in
acquire t s = acquire_in s.permits t s

unfoldable pub remove : ℕ → List ℕ → List ℕ
remove t [] = []
remove t (x ∷ xs) = let rest = remove t xs in if x == t then xs else x ∷ rest

-- By the queue: its first task takes the permit over, or the permit is free.
unfoldable pub hand_over : List ℕ → List ℕ → Semaphore → Semaphore
hand_over [] others s = record s { permits = s.permits + 1; holders = others }
hand_over (next ∷ rest) others s = record s { queue = rest; holders = next ∷ others }

unfoldable pub release : ℕ → Semaphore → Semaphore
unfolding hand_over remove
release t s = hand_over s.queue (remove t s.holders) s

pub record Mutex : Type 0 where
  pub locked : Bool
  pub queue : List ℕ

unfoldable pub lock_in : Bool → ℕ → Mutex → Mutex
lock_in false t m = record m { locked = true }
lock_in true t m = record m { queue = m.queue ++ t ∷ [] }

unfoldable pub acquire_mutex : ℕ → Mutex → Mutex
unfolding lock_in
acquire_mutex t m = lock_in m.locked t m

unfoldable pub unlock_in : List ℕ → Mutex → Mutex
unlock_in [] m = record m { locked = false }
unlock_in (next ∷ rest) m = record m { queue = rest }

unfoldable pub release_mutex : Mutex → Mutex
unfolding unlock_in
release_mutex m = unlock_in m.queue m
