-- ===== src/Leases/Expiry.antt =====
-- That a lock of src/core/distributed-mutex.ts is taken over when its lease has run out.
use mathlib.Core.Path.{subst}
use crash_wave.Prelude.{
  ℕ, zero, suc, ◌+◌, ◌≤◌, ◌≡◌, refl, sym, String, Option, none, some, true, false, List, get_key,
  delete_key, get-set_key, ◌⊎◌, inl, inr, leb, if_cases, length, ltb, some_inj, ◌<◌, [], ◌∷◌, arith,
}
use crash_wave.Leases.Mutex.{
  Lease, in_memory, LockHandle, MutexOptions, DistributedMutex, granted, over_existing,
  try_acquire_local, try_acquire, contended, Acquisition, AcquireEnd, got, waits, gives_up,
  Attempts, and_attempts, attempt, after_attempt, attempts, acquire,
}

-- A lease that, if there is one, has run out at a time.
abbrev pub RunsOutBy : ℕ → Option Lease → Type 0
RunsOutBy t none = Unit
RunsOutBy t (some l) = l.expires_at ≤ t

abbrev pub Lasts : ℕ → Option Lease → Type 0
Lasts t none = ⊥
Lasts t (some l) = t < l.expires_at

-- Every attempt met a lease that lasted, by its time.
abbrev pub AllLast : List (ℕ × Option Lease) → Type 0
AllLast [] = Unit
AllLast ((t, l) ∷ ls) = Lasts t l × AllLast ls

-- The last attempt met none that lasted, and every earlier one did.
abbrev pub MetOneGone : List (ℕ × Option Lease) → Type 0
MetOneGone [] = ⊥
MetOneGone ((t, l) ∷ []) = RunsOutBy t l
MetOneGone ((t, l) ∷ (k ∷ ls)) = Lasts t l × MetOneGone (k ∷ ls)

-- The lease of a token.
abbrev pub HeldBy : String → Option Lease → Type 0
HeldBy token none = ⊥
HeldBy token (some l) = l.token ≡ token

module _ {R : Type 0} (o : MutexOptions) (clock : ℕ → ℕ) (r token : String) where
  -- An attempt gives the handle, with the lease, or it leaves the locks as they are.
  abbrev Got : Option LockHandle × DistributedMutex R → Type 0
  Got (h, m) =
      (h ≡ some (record { backing = in_memory; token = token; resource = r }))
      × HeldBy token (get_key r m.local_locks)

  abbrev Tried :
      ℕ → Option Lease → DistributedMutex R → Option LockHandle × DistributedMutex R → Type 0
  Tried now e m w = (Got w × RunsOutBy now e) ⊎ ((w ≡ (none, m)) × Lasts now e)

  granted-Got :
      (now : ℕ) (t : List (String × Lease)) (m : DistributedMutex R)
      → Got (granted o now r token t m)
  granted-Got now t m = (
    refl,
    subst (HeldBy token)
        (sym (get-set_key r (record { token = token; expires_at = now + o.lock_timeout_ms }) t))
        refl,
  )

  over_existing-Tried :
      (now : ℕ) (e : Option Lease) (m : DistributedMutex R)
      → Tried now e m (over_existing o now r token e m)
  unfolding over_existing
  over_existing-Tried now none m = inl (granted-Got now m.local_locks m, tt)
  over_existing-Tried now (some l) m =
      if_cases (Tried now (some l) m) (leb l.expires_at now)
        (λ (f : leb l.expires_at now ≡ true).
          inl (granted-Got now (delete_key r m.local_locks) m, gone l.expires_at now f))
        (λ (f : leb l.expires_at now ≡ false). inr (refl, lasting l.expires_at now f))
    where
      gone : (a b : ℕ) → leb a b ≡ true → a ≤ b
      gone a b f = ground arith

      lasting : (a b : ℕ) → leb a b ≡ false → b < a
      lasting a b f = ground arith

  try_acquire-Tried :
      (now : ℕ) (m : DistributedMutex R)
      → o.allow_in_memory_fallback ≡ true
      → Tried now (get_key r m.local_locks) m (try_acquire o none now r token m)
  unfolding try_acquire try_acquire_local
  try_acquire-Tried now m a =
      if_cases (Tried now (get_key r m.local_locks) m) o.allow_in_memory_fallback
        (λ _. over_existing-Tried now (get_key r m.local_locks) m)
        (λ (f : o.allow_in_memory_fallback ≡ false). absurd (ground (arith, f, a)))

  -- How an acquisition of at most `n` attempts ends, by what its attempts meet: it gets the lock at
  -- the last of them, the first that meets no lease that lasts, or it gives up after `n` of them.
  abbrev pub Explained : ℕ → Attempts R → Type 0
  Explained n (got h, ls, m) =
      (length ls ≤ n)
      × MetOneGone ls
      × (h ≡ record { backing = in_memory; token = token; resource = r })
      × HeldBy token (get_key r m.local_locks)
  Explained n (gives_up, ls, m) = (length ls ≡ n) × AllLast ls
  Explained n (waits a, ls, m) = ⊥

  later-Explained :
      (n t : ℕ) (l : Option Lease) (e : AcquireEnd) (ls : List (ℕ × Option Lease))
      (m : DistributedMutex R)
      → Lasts t l
      → Explained n (e, ls, m)
      → Explained (suc n) (e, (t, l) ∷ ls, m)
  later-Explained n t l (got h) [] m k (c, x, y, z) = absurd x
  later-Explained n t l (got h) (x ∷ ls) m k (c, g, y, z) = (omega (arith, c), (k, g), y, z)
  later-Explained n t l gives_up ls m k (c, a) = (omega (arith, c), (k, a))
  later-Explained n t l (waits a) ls m k h = absurd h

  step-Explained :
      (n : ℕ) (a : Acquisition) (now : ℕ) (m : DistributedMutex R)
      (next : Acquisition → DistributedMutex R → Attempts R)
      (w : Option LockHandle × DistributedMutex R)
      → a.attempt + n ≡ o.retry_count
      → Tried now (get_key r m.local_locks) m w
      → (a.attempt < o.retry_count
          → Explained n (next (record a { attempt = a.attempt + 1 }) (contended o m)))
      → Explained
          (suc n)
          (and_attempts (now, get_key r m.local_locks) next (after_attempt o now a w))
  step-Explained n a now m next (some h, m') e (inl ((g, k), gone)) f =
      (omega arith, gone, some_inj g, k)
  step-Explained n a now m next (none, m') e (inl ((g, k), gone)) f = absurd (ground (arith, g))
  step-Explained n a now m next w e (inr (same, lasts)) f =
      let met : ℕ × Option Lease = (now, get_key r m.local_locks) in
      subst
        (λ (v : Option LockHandle × DistributedMutex R).
          Explained (suc n) (and_attempts met next (after_attempt o now a v)))
        (sym same)
        (if_cases
          (λ (v : AcquireEnd × DistributedMutex R). Explained (suc n) (and_attempts met next v))
          (ltb a.attempt o.retry_count)
          (λ (t : ltb a.attempt o.retry_count ≡ true).
            let rest : Attempts R = next (record a { attempt = a.attempt + 1 }) (contended o m) in
            later-Explained n now (get_key r m.local_locks) rest.0 rest.1 rest.2 lasts
              (f (below a.attempt o.retry_count t)))
          (λ (t : ltb a.attempt o.retry_count ≡ false).
            (last a.attempt o.retry_count e t, (lasts, tt))))
    where
      below : (i c : ℕ) → ltb i c ≡ true → i < c
      below i c t = ground arith

      last : (i c : ℕ) → i + n ≡ c → ltb i c ≡ false → 1 ≡ suc n
      last i c e' t = ground arith

  attempts-Explained :
      (between : ℕ → DistributedMutex R → DistributedMutex R) (n i start : ℕ)
      (m : DistributedMutex R)
      → o.allow_in_memory_fallback ≡ true
      → i + n ≡ o.retry_count
      → Explained (suc n) (
          attempts o none clock between
            (suc n)
            (record { resource = r; token = token; started_at = start; attempt = i })
            m)
  unfolding attempts attempt
  attempts-Explained between zero i start m a e =
      step-Explained zero (record { resource = r; token = token; started_at = start; attempt = i })
        (clock i) m (λ a' m'. attempts o none clock between zero a' (between i m'))
        (try_acquire o none (clock i) r token m) e (try_acquire-Tried (clock i) m a)
        (λ more. absurd (omega (arith, more, e)))
  attempts-Explained between (suc n) i start m a e =
      step-Explained (suc n)
        (record { resource = r; token = token; started_at = start; attempt = i }) (clock i) m
        (λ a' m'. attempts o none clock between (suc n) a' (between i m'))
        (try_acquire o none (clock i) r token m) e (try_acquire-Tried (clock i) m a)
        (λ _.
          attempts-Explained between n (i + 1) start (between i (contended o m)) a
            (omega (arith, e)))

  -- Without Redis, where locks in memory are allowed, and whatever other calls do to the mutex while
  -- it sleeps, an acquisition ends after at most `retryCount` + 1 attempts. It gets the lock at the
  -- first attempt that meets no lease, or one that has run out, and its token holds the lease then;
  -- it gives up only after `retryCount` + 1 attempts that all met a lease that lasted.
  pub acquire-Explained :
      (between : ℕ → DistributedMutex R → DistributedMutex R) (m : DistributedMutex R)
      → o.allow_in_memory_fallback ≡ true
      → Explained (suc o.retry_count) (acquire o none clock between r token m)
  unfolding acquire
  acquire-Explained between m a =
      attempts-Explained between o.retry_count zero (clock zero) m a (omega arith)
