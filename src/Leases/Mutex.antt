-- ===== src/Leases/Mutex.antt =====
-- The operations of DistributedMutex of src/core/distributed-mutex.ts. `clock i` is the time at
-- attempt i, which stands for its duration too.
use text.Mathlib.Text.{◌==◌ as str_eq}
use Prim.Native.String.{◌++◌ as ◌<>◌}
use crash_wave.Prelude.{
  ℕ, zero, suc, ◌+◌, ◌-◌, String, Option, none, some, Bool, true, false, List, [], get_key, set_key,
  delete_key, leb, ltb, ◌∷◌, if◌then◌else◌,
}
use crash_wave.Betting.Types.{Outcome, returned, threw}
pub use crash_wave.Leases.Types.{
  Lease, Backing, by_redis, in_memory, LockHandle, MutexMetrics, MutexOptions, LockClient,
  DistributedMutex, no_metrics, Acquisition, AcquireEnd, got, waits, gives_up, new_acquisition,
  Attempts,
}

abbrev pub lock_key : MutexOptions → String → String
lock_key o resource = o.key_prefix <> ("mutex:" <> resource)

-- `localLocks.set`, and the handle.
abbrev pub granted :
    {R : Type 0}
    → MutexOptions
    → ℕ
    → String
    → String
    → List (String × Lease)
    → DistributedMutex R
    → Option LockHandle × DistributedMutex R
granted o now resource token locks m = (
  some (record { backing = in_memory; token = token; resource = resource }),
  record m {
    local_locks =
        set_key resource (record { token = token; expires_at = now + o.lock_timeout_ms }) locks;
  },
)

abbrev pub and_attempts :
    {R : Type 0}
    → ℕ × Option Lease
    → (Acquisition → DistributedMutex R → Attempts R)
    → AcquireEnd × DistributedMutex R
    → Attempts R
and_attempts met next (waits a, m) = let (e, ls, m') = next a m in (e, met ∷ ls, m')
and_attempts met next (got h, m) = (got h, met ∷ [], m)
and_attempts met next (gives_up, m) = (gives_up, met ∷ [], m)

module _ {R : Type 0} (o : MutexOptions) where
  -- What follows `localLocks.get`: an expired lock is removed.
  unfoldable pub over_existing :
      ℕ
      → String
      → String
      → Option Lease
      → DistributedMutex R
      → Option LockHandle × DistributedMutex R
  over_existing now resource token none m = granted o now resource token m.local_locks m
  over_existing now resource token (some l) m =
      if leb l.expires_at now
      then granted o now resource token (delete_key resource m.local_locks) m
      else (none, m)

  unfoldable pub try_acquire_local :
      ℕ → String → String → DistributedMutex R → Option LockHandle × DistributedMutex R
  unfolding over_existing
  try_acquire_local now resource token m =
      over_existing now resource token (get_key resource m.local_locks) m

  -- What follows `SET … NX`.
  unfoldable pub after_set :
      ℕ
      → String
      → String
      → Outcome Bool
      → DistributedMutex R
      → Option LockHandle × DistributedMutex R
  unfolding try_acquire_local
  after_set now resource token (returned true) m =
      (some (record { backing = by_redis; token = token; resource = resource }), m)
  after_set now resource token (returned false) m = (none, m)
  after_set now resource token (threw e) m =
      if o.allow_in_memory_fallback then try_acquire_local now resource token m else (none, m)

  unfoldable pub try_acquire :
      Option (LockClient R)
      → ℕ
      → String
      → String
      → DistributedMutex R
      → Option LockHandle × DistributedMutex R
  unfolding after_set try_acquire_local
  try_acquire none now resource token m =
      if o.allow_in_memory_fallback then try_acquire_local now resource token m else (none, m)
  try_acquire (some redis) now resource token m =
      let (r, s) = redis.set_nx (lock_key o resource) token o.lock_timeout_ms m.redis_state in
      after_set now resource token r (record m { redis_state = s })

  abbrev pub contended : DistributedMutex R → DistributedMutex R
  contended m = record m { metrics = record m.metrics { contentions = m.metrics.contentions + 1 } }

  abbrev pub acquired : ℕ → DistributedMutex R → DistributedMutex R
  acquired latency m = record m {
    metrics = record m.metrics {
      acquisitions = m.metrics.acquisitions + 1;
      total_acquisition_latency_ms = m.metrics.total_acquisition_latency_ms + latency;
    };
  }

  abbrev pub failed : DistributedMutex R → DistributedMutex R
  failed m = record m { metrics = record m.metrics { failures = m.metrics.failures + 1 } }

  -- The body of the loop behind `tryAcquire`: the loop ends, or it sleeps up to the next attempt.
  abbrev pub after_attempt :
      ℕ → Acquisition → Option LockHandle × DistributedMutex R → AcquireEnd × DistributedMutex R
  after_attempt now a (some h, m) = (got h, acquired (now - a.started_at) m)
  after_attempt now a (none, m) =
      if ltb a.attempt o.retry_count
      then (waits (record a { attempt = a.attempt + 1 }), contended m)
      else (gives_up, failed (contended m))

  -- One attempt of an acquisition. Other calls may come before it and behind it.
  unfoldable pub attempt :
      Option (LockClient R) → ℕ → Acquisition → DistributedMutex R → AcquireEnd × DistributedMutex R
  unfolding try_acquire
  attempt redis now a m = after_attempt now a (try_acquire redis now a.resource a.token m)

  -- The loop: `between` is what other calls do to the mutex while it sleeps, and `n` bounds the
  -- attempts.
  unfoldable pub attempts :
      Option (LockClient R)
      → (ℕ → ℕ)
      → (ℕ → DistributedMutex R → DistributedMutex R)
      → ℕ
      → Acquisition
      → DistributedMutex R
      → Attempts R
  unfolding attempt
  attempts redis clock between zero a m = (waits a, [], m)
  attempts redis clock between (suc n) a m =
      and_attempts (clock a.attempt, get_key a.resource m.local_locks)
        (λ a' m'. attempts redis clock between n a' (between a.attempt m'))
        (attempt redis (clock a.attempt) a m)

  unfoldable pub acquire :
      Option (LockClient R)
      → (ℕ → ℕ)
      → (ℕ → DistributedMutex R → DistributedMutex R)
      → String
      → String
      → DistributedMutex R
      → Attempts R
  unfolding attempts
  acquire redis clock between resource token m =
      attempts redis clock between (suc o.retry_count) (new_acquisition (clock zero) resource token)
        m

  abbrev pub released : DistributedMutex R → DistributedMutex R
  released m = record m { metrics = record m.metrics { releases = m.metrics.releases + 1 } }

  -- The release of a local handle, after `localLocks.get`.
  abbrev pub release_found : LockHandle → Option Lease → DistributedMutex R → DistributedMutex R
  release_found h none m = m
  release_found h (some l) m =
      if str_eq l.token h.token
      then released (record m { local_locks = delete_key h.resource m.local_locks })
      else m

  abbrev pub release_answered : Outcome ℕ → DistributedMutex R → DistributedMutex R
  release_answered (returned n) m = released m
  release_answered (threw e) m = m

  unfoldable pub release_by :
      Backing → Option (LockClient R) → LockHandle → DistributedMutex R → DistributedMutex R
  release_by in_memory redis h m = release_found h (get_key h.resource m.local_locks) m
  release_by by_redis none h m = m
  release_by by_redis (some redis) h m =
      let (r, s) = redis.delete_owned (lock_key o h.resource) h.token m.redis_state in
      release_answered r (record m { redis_state = s })

  unfoldable pub release :
      Option (LockClient R) → LockHandle → DistributedMutex R → DistributedMutex R
  unfolding release_by
  release redis h m = release_by h.backing redis h m

  -- An injected client is left alone.
  abbrev pub disconnect : DistributedMutex R → DistributedMutex R
  disconnect m = record m { local_locks = [] }
