-- ===== src/Leases/Types.antt =====
-- What DistributedMutex of src/core/distributed-mutex.ts keeps and answers. The Redis client is a
-- third party's: a record of its commands over a state of its own, each of which may throw. Times are
-- in milliseconds.

use crash_wave.Prelude.{ℕ, String, Option, Bool, List}
use crash_wave.Betting.Types.{Outcome}

pub record Lease : Type 0 where
  pub token : String
  pub expires_at : ℕ

pub data Backing : Type 0 where
  by_redis in_memory : Backing

pub record LockHandle : Type 0 where
  pub backing : Backing
  pub token : String
  pub resource : String

pub record MutexMetrics : Type 0 where
  pub acquisitions : ℕ
  pub failures : ℕ
  pub contentions : ℕ
  pub releases : ℕ
  pub total_acquisition_latency_ms : ℕ

pub record MutexOptions : Type 0 where
  pub lock_timeout_ms : ℕ
  pub retry_count : ℕ
  pub key_prefix : String
  pub allow_in_memory_fallback : Bool

-- `SET key token PX ttl NX` answers whether it set the key; the script of a release, how many keys it
-- has deleted.
pub record LockClient (R : Type 0) : Type 0 where
  pub set_nx : String → String → ℕ → R → Outcome Bool × R
  pub delete_owned : String → String → R → Outcome ℕ × R

pub record DistributedMutex (R : Type 0) : Type 0 where
  pub redis_state : R
  pub local_locks : List (String × Lease)
  pub metrics : MutexMetrics

abbrev pub no_metrics : MutexMetrics
no_metrics = record {
  acquisitions = 0;
  failures = 0;
  contentions = 0;
  releases = 0;
  total_acquisition_latency_ms = 0;
}

-- A call of `acquire` that goes on: `attempt` is the number of the next one.
pub record Acquisition : Type 0 where
  pub resource : String
  pub token : String
  pub started_at : ℕ
  pub attempt : ℕ

pub data AcquireEnd : Type 0 where
  got : LockHandle → AcquireEnd
  waits : Acquisition → AcquireEnd
  gives_up : AcquireEnd

abbrev pub new_acquisition : ℕ → String → String → Acquisition
new_acquisition now resource token = record {
  resource = resource;
  token = token;
  started_at = now;
  attempt = 0;
}

-- The attempts that an acquisition makes, each with its time and the lease that it meets.
abbrev pub Attempts : Type 0 → Type 0
Attempts R = AcquireEnd × List (ℕ × Option Lease) × DistributedMutex R
