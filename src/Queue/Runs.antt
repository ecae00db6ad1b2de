-- ===== src/Queue/Runs.antt =====
-- priority-queue.ts over any sequence of calls.
use Prim.Native.Nat.{ℕ, suc, ◌+◌, ◌-◌, ◌*◌, ◌^◌, ◌≤◌, zero}
use crash_wave.Prelude.{
  ◌≡◌, refl, ap, ◌∙◌, Bool, true, false, Option, none, some, String, List, [], ◌∷◌, length, leb,
  ltb, arith, if_cases, or_else,
}
use crash_wave.Queue.Jobs.{
  QueuePriority, QueueJob, Buckets, Queue, QueueOptions, depth, pump, add_job, enqueue,
  retry_or_bury, finish_taken, finish_job, take_first, is_job, new_job, pump_free, continue_pump,
  start_job, dequeue,
}
use crash_wave.Queue.Selection.{Took, take_first-Took}
use crash_wave.Queue.Bounds.{load, Bounded, pump-Pumped, pump-Bounded, depth-add_job}

pub data QueueCall (T : Type 0) : Type 0 where
  enqueue_call : String → QueuePriority → T → ℕ → ℕ → QueueCall T
  end_call : String → Bool → ℕ → QueueCall T
  timer_call : ℕ → QueueCall T

below : (a b : ℕ) → leb a b ≡ false → suc b ≤ a
below a b h = ground (arith, h)

module _ {T : Type 0} where
  abbrev BoundedOption : QueueOptions → Option (Queue T) → Type 0
  BoundedOption o none = Unit
  BoundedOption o (some q) = Bounded o q

  enqueue-Bounded :
      (o : QueueOptions) (id : String) (p : QueuePriority) (t : T) (most now : ℕ) (q : Queue T)
      → Bounded o q
      → BoundedOption o (enqueue o id p t most now q)
  unfolding enqueue
  enqueue-Bounded o id p t most now q h =
      if_cases (BoundedOption o) (leb o.max_depth (depth q.buckets)) (λ _. tt)
        (λ room.
          let j = new_job id p t most now in
          pump-Bounded o now (add_job j q)
            (h.0, omega (arith, depth-add_job j q, h.0, below o.max_depth (depth q.buckets) room)))

  -- The jobs that wait, run or are dead.
  abbrev pub kept : Queue T → ℕ
  kept q = load q + length q.dead

  continue_pump-dead :
      (o : Option (QueueJob T × Buckets T)) (q : Queue T) (go : Queue T → Queue T)
      → ((r : Queue T) → (go r).dead ≡ r.dead)
      → (continue_pump o q go).dead ≡ q.dead
  continue_pump-dead none q go k = refl
  continue_pump-dead (some (j, b)) q go k = k (start_job (j, b) q)

  pump_free-dead : (free now : ℕ) (q : Queue T) → (pump_free free now q).dead ≡ q.dead
  unfolding pump_free
  pump_free-dead zero now q = refl
  pump_free-dead (suc free) now q =
      continue_pump-dead (dequeue now q.buckets) q (pump_free free now) (pump_free-dead free now)

  pump-kept :
      (o : QueueOptions) (now : ℕ) (q : Queue T)
      → length q.running ≤ o.concurrency
      → kept (pump o now q) ≡ kept q
  unfolding pump
  pump-kept o now q h = omega (
    arith,
    (pump-Pumped o now q h).1,
    ap length (pump_free-dead (o.concurrency - length q.running) now q),
  )

  retry_or_bury-load :
      (o : QueueOptions) (now : ℕ) (j : QueueJob T) (q : Queue T)
      → (length (retry_or_bury o now j q).running ≡ length q.running)
        × (load (retry_or_bury o now j q) ≤ suc (load q))
        × (kept (retry_or_bury o now j q) ≡ suc (kept q))
  unfolding retry_or_bury
  retry_or_bury-load o now j q =
      if_cases
        (λ (r : Queue T).
          (length r.running ≡ length q.running) × (load r ≤ suc (load q)) × (kept r ≡ suc (kept q)))
        (ltb j.attempts j.max_attempts)
        (λ _. (
          refl,
          omega (arith, depth-add_job (delayed j) q),
          omega (arith, depth-add_job (delayed j) q),
        ))
        (λ _. (refl, omega arith, omega arith))
    where
      delayed : QueueJob T → QueueJob T
      delayed k = record k { available_at = now + o.retry_base_ms * 2 ^ (k.attempts - 1) }

  finish_taken-Bounded :
      (o : QueueOptions) (ok : Bool) (now : ℕ) (found : Option (QueueJob T × List (QueueJob T)))
      (p : QueueJob T → Bool) (q : Queue T)
      → Took p q.running found
      → Bounded o q
      → Bounded o (finish_taken o ok now found q)
  unfolding finish_taken
  finish_taken-Bounded o ok now none p q t h = h
  finish_taken-Bounded o true now (some (j, others)) p q t h =
      pump-Bounded o now (record q { running = others })
        (omega (arith, h.0, t.1), omega (arith, h.1, t.1))
  finish_taken-Bounded o false now (some (j, others)) p q t h =
      let r = retry_or_bury-load o now j (record q { running = others }) in
      pump-Bounded o now (retry_or_bury o now j (record q { running = others }))
        (omega (arith, h.0, t.1, r.0), omega (arith, h.1, t.1, r.1))

  -- A refused `enqueue` throws and leaves the queue alone.
  abbrev pub apply : QueueOptions → QueueCall T → Queue T → Queue T
  apply o (enqueue_call id p t most now) q = or_else (enqueue o id p t most now q) q
  apply o (end_call id ok now) q = finish_job o id ok now q
  apply o (timer_call now) q = pump o now q

  abbrev pub run_calls : QueueOptions → List (QueueCall T) → Queue T → Queue T
  run_calls o [] q = q
  run_calls o (c ∷ cs) q = run_calls o cs (apply o c q)

  or_else-Bounded :
      (o : QueueOptions) (r : Option (Queue T)) (q : Queue T)
      → BoundedOption o r
      → Bounded o q
      → Bounded o (or_else r q)
  or_else-Bounded o none q b h = h
  or_else-Bounded o (some r) q b h = b

  apply-Bounded :
      (o : QueueOptions) (c : QueueCall T) (q : Queue T) → Bounded o q → Bounded o (apply o c q)
  unfolding finish_job
  apply-Bounded o (enqueue_call id p t most now) q h =
      or_else-Bounded o (enqueue o id p t most now q) q (enqueue-Bounded o id p t most now q h) h
  apply-Bounded o (end_call id ok now) q h =
      finish_taken-Bounded o ok now (take_first (is_job id) q.running) (is_job id) q
        (take_first-Took (is_job id) q.running) h
  apply-Bounded o (timer_call now) q h = pump-Bounded o now q h

  -- From a bounded queue, any calls leave at most `concurrency` jobs running, and at most `maxDepth` +
  -- `concurrency` jobs waiting or running.
  pub run_calls-Bounded :
      (o : QueueOptions) (cs : List (QueueCall T)) (q : Queue T)
      → Bounded o q
      → Bounded o (run_calls o cs q)
  run_calls-Bounded o [] q h = h
  run_calls-Bounded o (c ∷ cs) q h = run_calls-Bounded o cs (apply o c q) (apply-Bounded o c q h)

  found_kept :
      (o : QueueOptions) (now : ℕ) (found : Option (QueueJob T × List (QueueJob T)))
      (p : QueueJob T → Bool) (q : Queue T)
      → Took p q.running found
      → length q.running ≤ o.concurrency
      → kept (finish_taken o false now found q) ≡ kept q
  unfolding finish_taken
  found_kept o now none p q t h = refl
  found_kept o now (some (j, others)) p q t h =
      let q' : Queue T = record q { running = others } in
      let r = retry_or_bury-load o now j q' in
      pump-kept o now (retry_or_bury o now j q') (omega (arith, h, t.1, r.0))
      ∙ omega (arith, t.1, r.2)

  -- When no more jobs run than the concurrency allows, a job whose handler throws is not lost: the
  -- jobs that wait, run or are dead letters keep their number.
  pub finish_job-kept :
      (o : QueueOptions) (id : String) (now : ℕ) (q : Queue T)
      → length q.running ≤ o.concurrency
      → kept (finish_job o id false now q) ≡ kept q
  unfolding finish_job
  finish_job-kept o id now q =
      found_kept o now (take_first (is_job id) q.running) (is_job id) q
        (take_first-Took (is_job id) q.running)
