-- ===== src/Queue/Jobs.antt =====
-- src/core/job-queue/priority-queue.ts, `PriorityJobQueue`, with a handler set. The jobs that the
-- handler holds are listed with the queue, and so are the ones handed to `onDeadLetter`; a step is a
-- call of `enqueue`, the end of a job, or the retry timer. The `pumping` flag only keeps the loop of
-- `pump` from entering itself.
use Prim.Native.Nat.{ℕ, zero, suc, ◌+◌, ◌-◌, ◌*◌, ◌^◌}
use crash_wave.Prelude.{
  Bool, true, false, Option, none, some, String, List, [], ◌∷◌, ltb, leb, if◌then◌else◌, length,
}
use text.Mathlib.Text.{◌==◌ as str_eq}

pub data QueuePriority : Type 0 where
  critical high normal low background : QueuePriority

abbrev pub priority_order : List QueuePriority
priority_order = critical ∷ high ∷ normal ∷ low ∷ background ∷ []

module _ (T : Type 0) where
  pub record QueueJob : Type 0 where
    pub id : String
    pub priority : QueuePriority
    pub payload : T
    pub created_at : ℕ
    pub attempts : ℕ
    pub max_attempts : ℕ
    pub available_at : ℕ

  pub record Buckets : Type 0 where
    pub criticals : List QueueJob
    pub highs : List QueueJob
    pub normals : List QueueJob
    pub lows : List QueueJob
    pub backgrounds : List QueueJob

  pub record Queue : Type 0 where
    pub buckets : Buckets
    pub running : List QueueJob
    pub dead : List QueueJob

-- `maxDepth`, `concurrency` (at least 1) and `retryBaseMs`.
pub record QueueOptions : Type 0 where
  pub max_depth : ℕ
  pub concurrency : ℕ
  pub retry_base_ms : ℕ

module _ {T : Type 0} where
  abbrev pub bucket : QueuePriority → Buckets T → List (QueueJob T)
  bucket critical b = b.criticals
  bucket high b = b.highs
  bucket normal b = b.normals
  bucket low b = b.lows
  bucket background b = b.backgrounds

  abbrev pub with_bucket : QueuePriority → List (QueueJob T) → Buckets T → Buckets T
  with_bucket critical q b = record b { criticals = q }
  with_bucket high q b = record b { highs = q }
  with_bucket normal q b = record b { normals = q }
  with_bucket low q b = record b { lows = q }
  with_bucket background q b = record b { backgrounds = q }

  abbrev pub empty_queue : Queue T
  empty_queue = record {
    buckets = record { criticals = []; highs = []; normals = []; lows = []; backgrounds = [] };
    running = [];
    dead = [];
  }

  abbrev pub total : List QueuePriority → Buckets T → ℕ
  total [] b = 0
  total (p ∷ ps) b = length (bucket p b) + total ps b

  abbrev pub depth : Buckets T → ℕ
  depth = total priority_order

  -- `push`
  abbrev pub push : QueueJob T → List (QueueJob T) → List (QueueJob T)
  push j [] = j ∷ []
  push j (x ∷ xs) = x ∷ push j xs

  abbrev pub keep :
      QueueJob T → Option (QueueJob T × List (QueueJob T)) → Option (QueueJob T × List (QueueJob T))
  keep x none = none
  keep x (some (y, ys)) = some (y, x ∷ ys)

  -- `findIndex` and `splice`: the first job that passes, and the others.
  unfoldable pub take_first :
      (QueueJob T → Bool) → List (QueueJob T) → Option (QueueJob T × List (QueueJob T))
  take_first p [] = none
  take_first p (x ∷ xs) = let rest = take_first p xs in if p x then some (x, xs) else keep x rest

  abbrev pub is_available : ℕ → QueueJob T → Bool
  is_available now j = leb j.available_at now

  abbrev pub taken :
      QueuePriority
      → Buckets T
      → Option (QueueJob T × List (QueueJob T))
      → Option (QueueJob T × Buckets T)
      → Option (QueueJob T × Buckets T)
  taken p b none rest = rest
  taken p b (some (j, q)) rest = some (j, with_bucket p q b)

  unfoldable pub dequeue_from : List QueuePriority → ℕ → Buckets T → Option (QueueJob T × Buckets T)
  unfolding take_first
  dequeue_from [] now b = none
  dequeue_from (p ∷ ps) now b =
      taken p b (take_first (is_available now) (bucket p b)) (dequeue_from ps now b)

  unfoldable pub dequeue : ℕ → Buckets T → Option (QueueJob T × Buckets T)
  unfolding dequeue_from
  dequeue = dequeue_from priority_order

  -- The handler gets a job, its attempts counted.
  abbrev pub start_job : QueueJob T × Buckets T → Queue T → Queue T
  start_job (j, b) q = record q {
    buckets = b;
    running = record j { attempts = suc j.attempts } ∷ q.running;
  }

  abbrev pub continue_pump :
      Option (QueueJob T × Buckets T) → Queue T → (Queue T → Queue T) → Queue T
  continue_pump none q go = q
  continue_pump (some found) q go = go (start_job found q)

  -- The loop of `pump`, which runs while `active < concurrency`: the number is that difference.
  unfoldable pub pump_free : ℕ → ℕ → Queue T → Queue T
  unfolding dequeue
  pump_free zero now q = q
  pump_free (suc free) now q = continue_pump (dequeue now q.buckets) q (pump_free free now)

  unfoldable pub pump : QueueOptions → ℕ → Queue T → Queue T
  unfolding pump_free
  pump o now q = pump_free (o.concurrency - length q.running) now q

  -- A job joins the bucket of its priority.
  abbrev pub add_job : QueueJob T → Queue T → Queue T
  add_job j q = record q {
    buckets = with_bucket j.priority (push j (bucket j.priority q.buckets)) q.buckets;
  }

  abbrev pub new_job : String → QueuePriority → T → ℕ → ℕ → QueueJob T
  new_job id priority payload max_attempts now = record {
    id = id;
    priority = priority;
    payload = payload;
    created_at = now;
    attempts = 0;
    max_attempts = max_attempts;
    available_at = now;
  }

  -- `enqueue`; none when it throws 'queue_depth_limit_exceeded'.
  unfoldable pub enqueue :
      QueueOptions → String → QueuePriority → T → ℕ → ℕ → Queue T → Option (Queue T)
  unfolding pump
  enqueue o id priority payload max_attempts now q =
      if leb o.max_depth (depth q.buckets)
      then none
      else some (pump o now (add_job (new_job id priority payload max_attempts now) q))

  -- A job whose handler threw: back into its bucket with a delay, or to the dead letters.
  unfoldable pub retry_or_bury : QueueOptions → ℕ → QueueJob T → Queue T → Queue T
  retry_or_bury o now j q =
      if ltb j.attempts j.max_attempts
      then add_job (record j { available_at = now + o.retry_base_ms * 2 ^ (j.attempts - 1) }) q
      else record q { dead = j ∷ q.dead }

  abbrev pub is_job : String → QueueJob T → Bool
  is_job id j = str_eq j.id id

  unfoldable pub finish_taken :
      QueueOptions → Bool → ℕ → Option (QueueJob T × List (QueueJob T)) → Queue T → Queue T
  unfolding retry_or_bury pump
  finish_taken o ok now none q = q
  finish_taken o true now (some (j, others)) q = pump o now (record q { running = others })
  finish_taken o false now (some (j, others)) q =
      pump o now (retry_or_bury o now j (record q { running = others }))

  -- The end of `run` for a running job: the handler returned, or threw.
  unfoldable pub finish_job : QueueOptions → String → Bool → ℕ → Queue T → Queue T
  unfolding finish_taken take_first
  finish_job o id ok now q = finish_taken o ok now (take_first (is_job id) q.running) q
