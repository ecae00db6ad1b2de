-- ===== src/Leases/Exclusion.antt =====
-- No second holder of a lock of src/core/distributed-mutex.ts while it lasts.
use text.Mathlib.Text.{◌==◌ as str_eq}
use mathlib.Core.Path.{subst}
use crash_wave.Prelude.{
  ℕ, ◌<◌, ◌≡◌, refl, sym, ◌∙◌, ap, String, Option, none, some, Bool, true, false, ◌&&◌, not, List,
  [], ◌∷◌, get_key, get-delete_key, every, if◌then◌else◌, if_cases, some_inj, arith,
}
use crash_wave.Betting.Types.{Outcome, returned, threw}
use crash_wave.Leases.Mutex.{
  Lease, Backing, by_redis, in_memory, LockHandle, MutexOptions, LockClient, DistributedMutex,
  lock_key, Acquisition, attempt, disconnect, release_found, release_answered, release_by, release,
}
use crash_wave.Leases.Lasting.{
  is_local, locks, NoLock, is_other, Locked, handle_of, attempt-Excluded,
}

-- A step of a mutex: an attempt of an acquisition, the release of a handle, or a disconnect. The
-- attempts of an acquisition are steps of their own, since other calls run while it sleeps.
pub data MutexCall : Type 0 where
  attempting : ℕ → Acquisition → MutexCall
  releasing : LockHandle → MutexCall
  disconnecting : MutexCall

abbrev pub add_handle : Option LockHandle → List LockHandle → List LockHandle
add_handle none hs = hs
add_handle (some h) hs = h ∷ hs

-- The handles that the calls give, and the mutex after them.
unfoldable pub run_calls :
    {R : Type 0}
    → MutexOptions
    → Option (LockClient R)
    → List MutexCall
    → DistributedMutex R
    → List LockHandle × DistributedMutex R
unfolding attempt release
run_calls o redis [] m = ([], m)
run_calls o redis (attempting now a ∷ cs) m =
    let (e, m') = attempt o redis now a m in
    let (hs, m'') = run_calls o redis cs m' in (add_handle (handle_of e) hs, m'')
run_calls o redis (releasing h ∷ cs) m = run_calls o redis cs (release o redis h m)
run_calls o redis (disconnecting ∷ cs) m = run_calls o redis cs (disconnect o m)

-- The step comes while the lease lasts, and neither releases it nor disconnects the mutex.
abbrev pub Quiet : String → Lease → MutexCall → Type 0
Quiet r l (attempting now a) = now < l.expires_at
Quiet r l (releasing h) = (locks r h && str_eq l.token h.token) ≡ false
Quiet r l disconnecting = ⊥

abbrev pub AllQuiet : String → Lease → List MutexCall → Type 0
AllQuiet r l [] = Unit
AllQuiet r l (c ∷ cs) = Quiet r l c × AllQuiet r l cs

add_handle-every :
    (r : String) (h : Option LockHandle) (hs : List LockHandle)
    → NoLock r h
    → every (λ x. not (locks r x)) hs ≡ true
    → every (λ x. not (locks r x)) (add_handle h hs) ≡ true
add_handle-every r none hs n k = k
add_handle-every r (some h) hs n k =
    ap (λ (b : Bool). not b && every (λ x. not (locks r x)) hs) n ∙ k

owned :
    (r : String) (h : LockHandle) (l l' : Lease)
    → str_eq h.resource r ≡ true
    → str_eq l'.token h.token ≡ true
    → l' ≡ l
    → (str_eq h.resource r && str_eq l.token h.token) ≡ false
    → ⊥
owned r h l l' same e f q =
    let t = subst (λ (x : Lease). str_eq x.token h.token ≡ true) f e in ground (arith, same, t, q)

module _ {R : Type 0} (o : MutexOptions) (r : String) (l : Lease) where
  release_found-Locked :
      (h : LockHandle) (e : Option Lease) (m : DistributedMutex R)
      → get_key h.resource m.local_locks ≡ e
      → (str_eq h.resource r && str_eq l.token h.token) ≡ false
      → Locked o r l m
      → Locked o r l (release_found o h e m)
  release_found-Locked h none m g q k = k
  release_found-Locked h (some l') m g q k =
      if_cases (Locked o r l) (str_eq l'.token h.token)
        (λ (e : str_eq l'.token h.token ≡ true).
          let other =
            is_other h.resource r m.local_locks l k
              (λ (same : str_eq h.resource r ≡ true)
                  (f : get_key h.resource m.local_locks ≡ some l).
                owned r h l l' same e (some_inj (sym g ∙ f)) q) in
          get-delete_key h.resource r m.local_locks
          ∙ ap (λ (b : Bool). if b then none else get_key r m.local_locks) other
          ∙ k)
        (λ _. k)

  release_answered-Locked :
      (a : Outcome ℕ) (m : DistributedMutex R)
      → Locked o r l m
      → Locked o r l (release_answered o a m)
  release_answered-Locked (returned n) m k = k
  release_answered-Locked (threw e) m k = k

  release_by-Locked :
      (b : Backing) (redis : Option (LockClient R)) (h : LockHandle) (m : DistributedMutex R)
      → ((is_local b && str_eq h.resource r) && str_eq l.token h.token) ≡ false
      → Locked o r l m
      → Locked o r l (release_by o b redis h m)
  unfolding release_by
  release_by-Locked in_memory redis h m q k =
      release_found-Locked h (get_key h.resource m.local_locks) m refl q k
  release_by-Locked by_redis none h m q k = k
  release_by-Locked by_redis (some redis) h m q k =
      let w = redis.delete_owned (lock_key o h.resource) h.token m.redis_state in
      release_answered-Locked w.0 (record m { redis_state = w.1 }) k

  -- While a local lease on a resource lasts, nobody releases it and the mutex is not disconnected, no
  -- attempt of an acquisition gives another local handle to the resource, and the lease stays as it
  -- is; whatever Redis answers, and however the attempts of several acquisitions alternate.
  pub run_calls-Excluded :
      (redis : Option (LockClient R)) (cs : List MutexCall) (m : DistributedMutex R)
      → get_key r m.local_locks ≡ some l
      → AllQuiet r l cs
      → let (hs, m') = run_calls o redis cs m in
        (every (λ h. not (locks r h)) hs ≡ true) × (get_key r m'.local_locks ≡ some l)
  unfolding run_calls attempt release
  run_calls-Excluded redis [] m h q = (refl, h)
  run_calls-Excluded redis (attempting now a ∷ cs) m h (live, q) =
      let w = attempt o redis now a m in
      let e = attempt-Excluded o r l redis now a m live h in
      let (n, k) = run_calls-Excluded redis cs w.1 e.1 q in
      (add_handle-every r (handle_of w.0) (run_calls o redis cs w.1).0 e.0 n, k)
  run_calls-Excluded redis (releasing h ∷ cs) m k (free, q) =
      run_calls-Excluded redis cs (release o redis h m)
        (release_by-Locked h.backing redis h m free k) q
  run_calls-Excluded redis (disconnecting ∷ cs) m h (q, qs) = absurd q
