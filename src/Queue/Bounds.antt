-- ===== src/Queue/Bounds.antt =====
-- How many jobs of priority-queue.ts wait and run behind its pump.
use Prim.Native.Nat.{ℕ, zero, suc, ◌+◌, ◌-◌, ◌≤◌}
use crash_wave.Prelude.{
  ◌≡◌, refl, ap, ◌⊎◌, inl, inr, Option, none, some, List, [], ◌∷◌, length, arith,
}
use mathlib.Core.Path.{subst}
use crash_wave.Queue.Jobs.{
  QueuePriority, critical, high, normal, low, background, priority_order, QueueJob, Buckets, Queue,
  QueueOptions, bucket, with_bucket, depth, push, start_job, continue_pump, dequeue, pump_free,
  pump, add_job,
}
use crash_wave.Queue.Selection.{AllQuiet, ChosenJob, Chosen, dequeue-Chosen}

module _ {T : Type 0} where
  length-push : (j : QueueJob T) (xs : List (QueueJob T)) → length (push j xs) ≡ suc (length xs)
  length-push j [] = refl
  length-push j (x ∷ xs) = ap suc (length-push j xs)

  depth-with_bucket :
      (p : QueuePriority) (q : List (QueueJob T)) (b : Buckets T)
      → depth (with_bucket p q b) + length (bucket p b) ≡ depth b + length q
  depth-with_bucket critical q b = omega arith
  depth-with_bucket high q b = omega arith
  depth-with_bucket normal q b = omega arith
  depth-with_bucket low q b = omega arith
  depth-with_bucket background q b = omega arith

  pub depth-add_job :
      (j : QueueJob T) (q : Queue T) → depth (add_job j q).buckets ≡ suc (depth q.buckets)
  depth-add_job j q = omega (
    arith,
    depth-with_bucket j.priority (push j (bucket j.priority q.buckets)) q.buckets,
    length-push j (bucket j.priority q.buckets),
  )

  depth-chosen :
      (now : ℕ) (b : Buckets T) (j : QueueJob T) (b' : Buckets T)
      → ChosenJob now priority_order b j b'
      → depth b ≡ suc (depth b')
  depth-chosen now b j b' h =
      omega (arith, depth-with_bucket h.priority h.others b, h.fewer, ap depth h.left)

  -- The jobs that wait or run.
  abbrev pub load : Queue T → ℕ
  load q = depth q.buckets + length q.running

  abbrev pub Bounded : QueueOptions → Queue T → Type 0
  Bounded o q = (length q.running ≤ o.concurrency) × (load q ≤ o.max_depth + o.concurrency)

  -- The pump fills the free places, or leaves no available job waiting.
  abbrev pub Served : ℕ → ℕ → Queue T → Type 0
  Served places now q = (length q.running ≡ places) ⊎ AllQuiet now q.buckets priority_order

  -- A pump of some free places, from a queue of some load.
  abbrev pub Pumped : ℕ → ℕ → ℕ → Queue T → Type 0
  Pumped places total now q = (length q.running ≤ places) × (load q ≡ total) × Served places now q

  continue_pump-Pumped :
      (places now : ℕ) (o : Option (QueueJob T × Buckets T)) (q : Queue T) (go : Queue T → Queue T)
      → Chosen now priority_order q.buckets o
      → length q.running ≤ places
      → ((r : Queue T)
          → length r.running ≡ suc (length q.running)
          → load r ≡ load q
          → Pumped places (load q) now (go r))
      → Pumped places (load q) now (continue_pump o q go)
  continue_pump-Pumped places now none q go c h k = (h, refl, inr c)
  continue_pump-Pumped places now (some (j, b)) q go c h k =
      k (start_job (j, b) q) refl (omega (arith, depth-chosen now q.buckets j b c))

  pump_free-Pumped :
      (places free now : ℕ) (q : Queue T)
      → free + length q.running ≡ places
      → Pumped places (load q) now (pump_free free now q)
  unfolding pump_free
  pump_free-Pumped places zero now q h = (omega (arith, h), refl, inl (omega (arith, h)))
  pump_free-Pumped places (suc free) now q h =
      continue_pump-Pumped places now (dequeue now q.buckets) q (pump_free free now)
        (dequeue-Chosen now q.buckets) (omega (arith, h))
        (λ r e l.
          subst (λ n. Pumped places n now (pump_free free now r)) l
            (pump_free-Pumped places free now r (omega (arith, h, e))))

  pub pump-Pumped :
      (o : QueueOptions) (now : ℕ) (q : Queue T)
      → length q.running ≤ o.concurrency
      → Pumped o.concurrency (load q) now (pump o now q)
  unfolding pump
  pump-Pumped o now q h =
      pump_free-Pumped o.concurrency (o.concurrency - length q.running) now q (omega (arith, h))

  -- When no more jobs run than the concurrency allows, a pump leaves every place busy or no
  -- available job waiting.
  pub pump-Served :
      (o : QueueOptions) (now : ℕ) (q : Queue T)
      → length q.running ≤ o.concurrency
      → Served o.concurrency now (pump o now q)
  pump-Served o now q h = (pump-Pumped o now q h).2

  pub pump-Bounded :
      (o : QueueOptions) (now : ℕ) (q : Queue T) → Bounded o q → Bounded o (pump o now q)
  pump-Bounded o now q h = let p = pump-Pumped o now q h.0 in (p.0, omega (arith, p.1, h.1))
