-- ===== src/Leases/Lasting.antt =====
-- What an acquisition of src/core/distributed-mutex.ts leaves of a lease that lasts.
use text.Mathlib.Text.{◌==◌ as str_eq}
use text.Mathlib.TextEquality.{eq_iff}
use mathlib.Core.Path.{subst}
use crash_wave.Prelude.{
  ℕ, ◌+◌, ◌<◌, ◌≡◌, refl, sym, ◌∙◌, ap, String, Option, none, some, Bool, true, false, ◌&&◌, List,
  get_key, delete_key, get-set, get-delete_key, leb, ltb, if_both, if◌then◌else◌, if_cases,
  some_inj, arith,
}
use crash_wave.Betting.Types.{Outcome, returned, threw}
use crash_wave.Leases.Mutex.{
  Lease, Backing, by_redis, in_memory, LockHandle, MutexOptions, LockClient, DistributedMutex,
  lock_key, granted, over_existing, try_acquire_local, after_set, try_acquire, after_attempt,
  attempt, Acquisition, AcquireEnd, got,
}

-- Whether a handle is that of a local lock on the resource.
abbrev pub is_local : Backing → Bool
is_local by_redis = false
is_local in_memory = true

abbrev pub locks : String → LockHandle → Bool
locks r h = is_local h.backing && str_eq h.resource r

-- The handle that an attempt gives.
abbrev pub handle_of : AcquireEnd → Option LockHandle
handle_of (got h) = some h
handle_of _ = none

abbrev pub NoLock : String → Option LockHandle → Type 0
NoLock r none = Unit
NoLock r (some h) = locks r h ≡ false

pub is_other :
    (res r : String) (t : List (String × Lease)) (l : Lease)
    → get_key r t ≡ some l
    → (str_eq res r ≡ true → get_key res t ≡ some l → ⊥)
    → str_eq res r ≡ false
is_other res r t l h k = decide (str_eq res r) refl
  where
    decide : (b : Bool) → str_eq res r ≡ b → str_eq res r ≡ false
    decide true e =
        absurd (k e (subst (λ (x : String). get_key x t ≡ some l) (sym ((eq_iff res r).0 e)) h))
    decide false e = e

expired :
    (res : String) (t : List (String × Lease)) (now : ℕ) (l l' : Lease)
    → get_key res t ≡ some l'
    → get_key res t ≡ some l
    → leb l'.expires_at now ≡ true
    → now < l.expires_at
    → ⊥
expired res t now l l' g k e live =
    let same = ap (λ (x : Lease). x.expires_at) (some_inj (sym g ∙ k)) in ground (arith, same)

module _ {R : Type 0} (o : MutexOptions) (r : String) (l : Lease) where
  abbrev pub Locked : DistributedMutex R → Type 0
  Locked m = get_key r m.local_locks ≡ some l

  -- What an attempt leaves.
  abbrev pub Excluded : Option LockHandle × DistributedMutex R → Type 0
  Excluded (h, m) = NoLock r h × Locked m

  granted-Excluded :
      (now : ℕ) (res tok : String) (t : List (String × Lease)) (m : DistributedMutex R)
      → str_eq res r ≡ false
      → get_key r t ≡ some l
      → Excluded (granted o now res tok t m)
  granted-Excluded now res tok t m e h = (
    e,
    get-set res r (record { token = tok; expires_at = now + o.lock_timeout_ms }) t
        ∙ ap
            (λ (b : Bool).
              if b
              then some (record { token = tok; expires_at = now + o.lock_timeout_ms })
              else get_key r t)
            e
        ∙ h,
  )

  over_existing-Excluded :
      (now : ℕ) (res tok : String) (e : Option Lease) (m : DistributedMutex R)
      → now < l.expires_at
      → get_key res m.local_locks ≡ e
      → Locked m
      → Excluded (over_existing o now res tok e m)
  unfolding over_existing
  over_existing-Excluded now res tok none m live g h =
      granted-Excluded now res tok m.local_locks m
        (is_other res r m.local_locks l h
          (λ (_ : str_eq res r ≡ true) (k : get_key res m.local_locks ≡ some l). ground arith))
        h
  over_existing-Excluded now res tok (some l') m live g h =
      if_cases Excluded (leb l'.expires_at now)
        (λ (e : leb l'.expires_at now ≡ true).
          let other =
            is_other res r m.local_locks l h
              (λ (_ : str_eq res r ≡ true) (k : get_key res m.local_locks ≡ some l).
                expired res m.local_locks now l l' g k e live) in
          granted-Excluded now res tok (delete_key res m.local_locks) m other (
            get-delete_key res r m.local_locks
            ∙ ap (λ (b : Bool). if b then none else get_key r m.local_locks) other
            ∙ h))
        (λ _. (tt, h))

  try_acquire_local-Excluded :
      (now : ℕ) (res tok : String) (m : DistributedMutex R)
      → now < l.expires_at
      → Locked m
      → Excluded (try_acquire_local o now res tok m)
  unfolding try_acquire_local
  try_acquire_local-Excluded now res tok m live h =
      over_existing-Excluded now res tok (get_key res m.local_locks) m live refl h

  after_set-Excluded :
      (now : ℕ) (res tok : String) (a : Outcome Bool) (m : DistributedMutex R)
      → now < l.expires_at
      → Locked m
      → Excluded (after_set o now res tok a m)
  unfolding after_set
  after_set-Excluded now res tok (returned true) m live h = (refl, h)
  after_set-Excluded now res tok (returned false) m live h = (tt, h)
  after_set-Excluded now res tok (threw e) m live h =
      if_cases Excluded o.allow_in_memory_fallback
        (λ _. try_acquire_local-Excluded now res tok m live h) (λ _. (tt, h))

  try_acquire-Excluded :
      (redis : Option (LockClient R)) (now : ℕ) (res tok : String) (m : DistributedMutex R)
      → now < l.expires_at
      → Locked m
      → Excluded (try_acquire o redis now res tok m)
  unfolding try_acquire
  try_acquire-Excluded none now res tok m live h =
      if_cases Excluded o.allow_in_memory_fallback
        (λ _. try_acquire_local-Excluded now res tok m live h) (λ _. (tt, h))
  try_acquire-Excluded (some redis) now res tok m live h =
      let w = redis.set_nx (lock_key o res) tok o.lock_timeout_ms m.redis_state in
      after_set-Excluded now res tok w.0 (record m { redis_state = w.1 }) live h

  -- What an attempt of an acquisition leaves.
  abbrev pub ExcludedEnd : AcquireEnd × DistributedMutex R → Type 0
  ExcludedEnd (e, m) = NoLock r (handle_of e) × Locked m

  after_attempt-Excluded :
      (now : ℕ) (a : Acquisition) (w : Option LockHandle × DistributedMutex R)
      → Excluded w
      → ExcludedEnd (after_attempt o now a w)
  after_attempt-Excluded now a (some h, m) (n, k) = (n, k)
  after_attempt-Excluded now a (none, m) (n, k) =
      if_both ExcludedEnd (ltb a.attempt o.retry_count) (tt, k) (tt, k)

  pub attempt-Excluded :
      (redis : Option (LockClient R)) (now : ℕ) (a : Acquisition) (m : DistributedMutex R)
      → now < l.expires_at
      → Locked m
      → ExcludedEnd (attempt o redis now a m)
  unfolding attempt
  attempt-Excluded redis now a m live h =
      after_attempt-Excluded now a (try_acquire o redis now a.resource a.token m)
        (try_acquire-Excluded redis now a.resource a.token m live h)
