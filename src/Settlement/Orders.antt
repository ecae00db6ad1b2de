-- ===== src/Settlement/Orders.antt =====
-- The table of orders: distinct ids, and sums over the orders under an update of one of them.
use crash_wave.Prelude.{
  ℕ, ◌+◌, ◌<◌, ◌≤◌, ◌≡◌, ◌≢◌, refl, Bool, true, false, some, List, [], ◌∷◌, ◌==◌, arith, find,
  if◌then◌else◌, Bool-cases, inl, inr, ==_iff,
}
use mathlib.Core.Path.{subst}
use crash_wave.Settlement.Types.{Order}
use crash_wave.Settlement.Engine.{update_orders}

-- No order of the list has the id.
abbrev pub Absent : ℕ → List Order → Type 0
Absent id [] = Unit
Absent id (o ∷ os) = (o.id ≢ id) × Absent id os

abbrev pub DistinctIds : List Order → Type 0
DistinctIds [] = Unit
DistinctIds (o ∷ os) = Absent o.id os × DistinctIds os

abbrev pub IdsBelow : ℕ → List Order → Type 0
IdsBelow n [] = Unit
IdsBelow n (o ∷ os) = (o.id < n) × IdsBelow n os

pub IdsBelow-suc : (n k : ℕ) (os : List Order) → n ≤ k → IdsBelow n os → IdsBelow k os
IdsBelow-suc n k [] h b = tt
IdsBelow-suc n k (o ∷ os) h (b, bs) = (omega arith, IdsBelow-suc n k os h bs)

pub IdsBelow-Absent : (n : ℕ) (os : List Order) → IdsBelow n os → Absent n os
IdsBelow-Absent n [] b = tt
IdsBelow-Absent n (o ∷ os) (b, bs) = ((λ e. omega arith), IdsBelow-Absent n os bs)

pub find-Absent :
    (q : Order → Bool) (id : ℕ) (os : List Order) (o : Order)
    → Absent id os
    → find q os ≡ some o
    → o.id ≢ id
find-Absent q id [] o a f = cc
find-Absent q id (x ∷ os) o (a, rest) f = elim (Bool-cases (q x)) [
  | inl hit ↦ λ e. a (ground arith)
  | inr miss ↦ find-Absent q id os o rest (rw miss at f)
]

-- An update that keeps every id.
module _ (p : Order → Bool) (f : Order → Order) (keeps : (o : Order) → (f o).id ≡ o.id) where
  kept_id : (o : Order) → (if p o then f o else o).id ≡ o.id
  kept_id o = elim (Bool-cases (p o)) [ inl hit ↦ rw hit (keeps o) | inr miss ↦ rw miss refl ]

  Absent-update : (id : ℕ) (os : List Order) → Absent id os → Absent id (update_orders p f os)
  unfolding update_orders
  Absent-update id [] a = tt
  Absent-update id (o ∷ os) (a, rest) = (rw (kept_id o) a, Absent-update id os rest)

  pub DistinctIds-update : (os : List Order) → DistinctIds os → DistinctIds (update_orders p f os)
  unfolding update_orders
  DistinctIds-update [] d = tt
  DistinctIds-update (o ∷ os) (d, ds) =
      (rw (kept_id o) (Absent-update o.id os d), DistinctIds-update os ds)

  pub IdsBelow-update :
      (n : ℕ) (os : List Order) → IdsBelow n os → IdsBelow n (update_orders p f os)
  unfolding update_orders
  IdsBelow-update n [] b = tt
  IdsBelow-update n (o ∷ os) (b, bs) = (rw (kept_id o) b, IdsBelow-update n os bs)

unfoldable pub sum_of : (Order → ℕ) → List Order → ℕ
sum_of g [] = 0
sum_of g (o ∷ os) = g o + sum_of g os

-- An update that leaves the measure of each order it touches leaves the sum.
pub sum_of-update_same :
    (g : Order → ℕ) (p : Order → Bool) (f : Order → Order) (os : List Order)
    → ((o : Order) → p o ≡ true → g (f o) ≡ g o)
    → sum_of g (update_orders p f os) ≡ sum_of g os
unfolding sum_of update_orders
sum_of-update_same g p f [] h = refl
sum_of-update_same g p f (o ∷ os) h = elim (Bool-cases (p o)) [
  | inl hit ↦ rw hit (omega (arith, h o hit, sum_of-update_same g p f os h))
  | inr miss ↦ rw miss (omega (arith, sum_of-update_same g p f os h))
]

update-Absent :
    (id : ℕ) (f : Order → Order) (os : List Order)
    → Absent id os
    → update_orders (λ o. o.id == id) f os ≡ os
unfolding update_orders
update-Absent id f [] a = refl
update-Absent id f (o ∷ os) (a, rest) = rw (update-Absent id f os rest) (ground arith)

pub found_head :
    (q : Order → Bool) (x : Order) (os : List Order) (o : Order)
    → q x ≡ true
    → find q (x ∷ os) ≡ some o
    → x ≡ o
found_head q x os o hit e = let first : some x ≡ some o = rw hit at e in cc

==-ne : (a b : ℕ) → b ≢ a → (a == b) ≡ false
==-ne a b h = ground arith

module _ (g : Order → ℕ) (f : Order → Order) where
  abbrev Exchanges : List Order → Order → Type 0
  Exchanges os o = sum_of g (update_orders (λ o'. o'.id == o.id) f os) + g o ≡ sum_of g os + g (f o)

  exchange_head : (o : Order) (os : List Order) → Absent o.id os → Exchanges (o ∷ os) o
  unfolding sum_of update_orders
  exchange_head o os d = rw ((==_iff o.id o.id).1 refl, update-Absent o.id f os d) (omega arith)

  exchange_tail :
      (x o : Order) (os : List Order) → o.id ≢ x.id → Exchanges os o → Exchanges (x ∷ os) o
  unfolding sum_of update_orders
  exchange_tail x o os ne h = rw (==-ne x.id o.id ne) (omega arith)

  -- The update of the order that a search has found exchanges its measure in the sum.
  pub sum_of-update_found :
      (q : Order → Bool) (os : List Order) (o : Order)
      → DistinctIds os
      → find q os ≡ some o
      → sum_of g (update_orders (λ o'. o'.id == o.id) f os) + g o ≡ sum_of g os + g (f o)
  sum_of-update_found q [] o d e = cc
  sum_of-update_found q (x ∷ os) o (d, ds) e = elim (Bool-cases (q x)) [
    | inl hit ↦ subst (Exchanges (x ∷ os)) (found_head q x os o hit e) (exchange_head x os d)
    | inr miss ↦
        let below = rw miss at e in
        exchange_tail x o os (find-Absent q x.id os o d below) (sum_of-update_found q os o ds below)
  ]
