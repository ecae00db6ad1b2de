-- ===== src/Queue/Selection.antt =====
-- Which job `dequeue` of priority-queue.ts takes.
use crash_wave.Prelude.{
  ℕ, suc, ◌≡◌, refl, ap, Bool, true, false, not, Option, none, some, List, [], ◌∷◌, ◌++◌, every,
  length, arith, Bool-cases, inl, inr,
}
use crash_wave.Queue.Jobs.{
  QueuePriority, priority_order, QueueJob, Buckets, bucket, with_bucket, keep, take_first,
  is_available, taken, dequeue_from, dequeue,
}

module _ {T : Type 0} where
  -- What `take_first` says of the list.
  abbrev pub Took :
      (QueueJob T → Bool) → List (QueueJob T) → Option (QueueJob T × List (QueueJob T)) → Type 0
  Took p xs none = every (λ j. not (p j)) xs ≡ true
  Took p xs (some (y, ys)) = (p y ≡ true) × (length xs ≡ suc (length ys))

  Took-keep :
      (p : QueueJob T → Bool) (x : QueueJob T) (xs : List (QueueJob T))
      (o : Option (QueueJob T × List (QueueJob T)))
      → p x ≡ false
      → Took p xs o
      → Took p (x ∷ xs) (keep x o)
  Took-keep p x xs none m h = rw m h
  Took-keep p x xs (some (y, ys)) m h = (h.0, omega (arith, h.1))

  pub take_first-Took :
      (p : QueueJob T → Bool) (xs : List (QueueJob T)) → Took p xs (take_first p xs)
  unfolding take_first
  take_first-Took p [] = refl
  take_first-Took p (x ∷ xs) = elim (Bool-cases (p x)) [
    | inl hit ↦ rw hit (hit, refl)
    | inr miss ↦ rw miss (Took-keep p x xs (take_first p xs) miss (take_first-Took p xs))
  ]

  -- No job of some priorities is available.
  abbrev pub AllQuiet : ℕ → Buckets T → List QueuePriority → Type 0
  AllQuiet now b [] = Unit
  AllQuiet now b (p ∷ ps) =
      (every (λ j. not (is_available now j)) (bucket p b) ≡ true) × AllQuiet now b ps

  -- The job is the first available one of a priority, and no priority before it has one.
  pub record ChosenJob (now : ℕ) (ps : List QueuePriority) (b : Buckets T) (j : QueueJob T)
      (b' : Buckets T) : Type 0 where
    pub before : List QueuePriority
    pub priority : QueuePriority
    pub behind : List QueuePriority
    pub order : ps ≡ before ++ (priority ∷ behind)
    pub quiet : AllQuiet now b before
    pub others : List (QueueJob T)
    pub took : take_first (is_available now) (bucket priority b) ≡ some (j, others)
    pub left : b' ≡ with_bucket priority others b
    pub available : is_available now j ≡ true
    pub fewer : length (bucket priority b) ≡ suc (length others)

  abbrev pub Chosen : ℕ → List QueuePriority → Buckets T → Option (QueueJob T × Buckets T) → Type 0
  Chosen now ps b none = AllQuiet now b ps
  Chosen now ps b (some (j, b')) = ChosenJob now ps b j b'

  taken-Chosen :
      (now : ℕ) (p : QueuePriority) (ps : List QueuePriority) (b : Buckets T)
      (o : Option (QueueJob T × List (QueueJob T))) (rest : Option (QueueJob T × Buckets T))
      → take_first (is_available now) (bucket p b) ≡ o
      → Took (is_available now) (bucket p b) o
      → Chosen now ps b rest
      → Chosen now (p ∷ ps) b (taken p b o rest)
  taken-Chosen now p ps b none none e t h = (t, h)
  taken-Chosen now p ps b none (some (j, b')) e t h = record {
    before = p ∷ h.before;
    priority = h.priority;
    behind = h.behind;
    order = ap (λ qs. p ∷ qs) h.order;
    quiet = (t, h.quiet);
    others = h.others;
    took = h.took;
    left = h.left;
    available = h.available;
    fewer = h.fewer;
  }
  taken-Chosen now p ps b (some (j, q)) rest e t h = record {
    before = [];
    priority = p;
    behind = ps;
    order = refl;
    quiet = tt;
    others = q;
    took = e;
    left = refl;
    available = t.0;
    fewer = t.1;
  }

  dequeue_from-Chosen :
      (now : ℕ) (ps : List QueuePriority) (b : Buckets T) → Chosen now ps b (dequeue_from ps now b)
  unfolding dequeue_from
  dequeue_from-Chosen now [] b = tt
  dequeue_from-Chosen now (p ∷ ps) b =
      taken-Chosen now p ps b (take_first (is_available now) (bucket p b)) (dequeue_from ps now b)
        refl (take_first-Took (is_available now) (bucket p b)) (dequeue_from-Chosen now ps b)

  -- `dequeue` takes the first available job of the most urgent priority that has one, and leaves
  -- the others; when it takes none, no job of any priority is available.
  pub dequeue-Chosen : (now : ℕ) (b : Buckets T) → Chosen now priority_order b (dequeue now b)
  unfolding dequeue
  dequeue-Chosen now b = dequeue_from-Chosen now priority_order b
