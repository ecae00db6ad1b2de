-- ===== src/Queue/Tests.antt =====
-- Runs of a queue of numbers, and each theorem at an input of its own.
use Prim.Native.Nat.{ℕ}
use crash_wave.Prelude.{◌≡◌, refl, true, false, List, [], ◌∷◌, length, arith}
use crash_wave.Queue.Jobs.{
  low, critical, normal, priority_order, QueueOptions, Queue, empty_queue, depth, dequeue, pump,
  enqueue, finish_job,
}
use crash_wave.Queue.Selection.{Chosen, dequeue-Chosen}
use crash_wave.Queue.Bounds.{Bounded, Served, pump-Served}
use crash_wave.Queue.Runs.{
  QueueCall, enqueue_call, run_calls, run_calls-Bounded, kept, finish_job-kept,
}

abbrev options : QueueOptions
options = record { max_depth = 2; concurrency = 1; retry_base_ms = 100 }

-- The first job runs; a low and a critical one wait.
abbrev calls : List (QueueCall ℕ)
calls =
    enqueue_call "a" normal 1 3 0
    ∷ enqueue_call "b" low 2 3 0
    ∷ enqueue_call "c" critical 3 3 0
    ∷ []

abbrev busy : Queue ℕ
busy = run_calls options calls empty_queue

-- The critical job runs when the first one ends.
next_runs : length (finish_job options "a" true 5 busy).buckets.criticals ≡ 0
unfolding enqueue finish_job
next_runs = refl

-- A job that fails while the queue is full waits again beside the others.
fails_and_waits : depth (finish_job options "a" false 5 busy).buckets ≡ 2
unfolding enqueue finish_job
fails_and_waits = refl

run_calls-Bounded_example : Bounded options busy
run_calls-Bounded_example = run_calls-Bounded options calls empty_queue (omega arith, omega arith)

dequeue-Chosen_example : Chosen 5 priority_order busy.buckets (dequeue 5 busy.buckets)
dequeue-Chosen_example = dequeue-Chosen 5 busy.buckets

pump-Served_example : Served 1 5 (pump options 5 busy)
pump-Served_example =
    pump-Served options 5 busy
      (run_calls-Bounded options calls empty_queue (omega arith, omega arith)).0

finish_job-kept_example : kept (finish_job options "a" false 5 busy) ≡ kept busy
finish_job-kept_example =
    finish_job-kept options "a" 5 busy
      (run_calls-Bounded options calls empty_queue (omega arith, omega arith)).0
