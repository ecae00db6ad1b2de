-- ===== src/Leases/Tests.antt =====
-- Locks in memory, and each theorem at an input of its own.

use crash_wave.Prelude.{
  ℕ, String, ◌+◌, ◌*◌, ◌≡◌, refl, none, some, Bool, true, false, not, List, [], ◌∷◌, get_key, every,
  length, arith, if◌then◌else◌,
}
use crash_wave.Betting.Types.{returned, threw}
use crash_wave.Leases.Mutex.{
  Lease, in_memory, LockHandle, MutexOptions, LockClient, DistributedMutex, no_metrics, acquire,
  over_existing, disconnect, Acquisition, new_acquisition, attempt, got,
}
use crash_wave.Leases.Lasting.{locks}
use crash_wave.Leases.Exclusion.{MutexCall, attempting, releasing, run_calls, run_calls-Excluded}
use crash_wave.Leases.Expiry.{Explained, acquire-Explained}

abbrev options : MutexOptions
options = record {
  lock_timeout_ms = 30000;
  retry_count = 5;
  key_prefix = "crash:";
  allow_in_memory_fallback = true;
}

abbrev lease : Lease
lease = record { token = "t1"; expires_at = 30000 }

abbrev taken : DistributedMutex Unit
taken = record { redis_state = tt; local_locks = ("bet", lease) ∷ []; metrics = no_metrics }

abbrev clock : ℕ → ℕ → ℕ
clock start i = start + 100 * i

abbrev handle : LockHandle
handle = record { backing = in_memory; token = "t2"; resource = "bet" }

abbrev trying : String → String → Acquisition
trying resource token = new_acquisition 29000 resource token

abbrev calls : List MutexCall
calls =
    attempting 29000 (trying "bet" "t2")
    ∷ releasing handle
    ∷ attempting 29500 (trying "round" "t3")
    ∷ []

excluded_example :
    let (hs, m') = run_calls options none calls taken in
    (every (λ h. not (locks "bet" h)) hs ≡ true) × (get_key "bet" m'.local_locks ≡ some lease)
unfolding get_key
excluded_example =
    run_calls-Excluded options "bet" lease none calls taken refl
      (omega arith, (refl, (omega arith, tt)))

-- The lease runs out at the fifth attempt.
waits_for_it :
    (acquire options none (clock 29600) (λ i m. m) "bet" "t2" taken).0
    ≡ got (record { backing = in_memory; token = "t2"; resource = "bet" })
unfolding acquire over_existing get_key
waits_for_it = refl

acquire-Explained_example :
    Explained options
      (clock 29600)
      "bet"
      "t2"
      6
      (acquire options none (clock 29600) (λ i m. m) "bet" "t2" taken)
acquire-Explained_example = acquire-Explained options (clock 29600) "bet" "t2" (λ i m. m) taken refl

-- Redis gives the lock at the first call and fails at the second.
abbrev failing : LockClient Bool
failing = record {
  set_nx = λ key token ttl s. if s then (returned true, false) else (threw "down", false);
  delete_owned = λ key token s. (returned 1, s);
}

abbrev connected : DistributedMutex Bool
connected = record { redis_state = true; local_locks = []; metrics = no_metrics }

-- Both calls get the lock of one resource, the second by the fallback.
two_holders :
    length
      (run_calls options
        (some failing)
        (attempting 29000 (trying "bet" "t1") ∷ attempting 29000 (trying "bet" "t2") ∷ [])
        connected).0
    ≡ 2
unfolding run_calls over_existing get_key
two_holders = refl

-- After a disconnect the resource is free, although the lease lasts.
forgotten :
    (attempt options none 29000 (trying "bet" "t2") (disconnect options taken)).0 ≡ got handle
unfolding attempt over_existing get_key
forgotten = refl
