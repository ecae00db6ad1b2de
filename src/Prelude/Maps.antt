-- ===== src/Prelude/Maps.antt =====
-- `Map<string, V>` as an association list: a key stands once, at its first insertion.
use Prim.Native.Nat.{suc}
use mathlib.Core.Path.{◌≡◌, refl, ap}
use mathlib.Core.Logic.{inl, inr}
use mathlib.Core.Bool.{true}
use mathlib.Core.Option.{Option, none, some}
use mathlib.Core.List.{List, [], ◌∷◌, ◌++◌}
use Prim.Native.String.{String}
use text.Mathlib.Text.{◌==◌ as str_eq}
use text.Mathlib.TextEquality.{eq_iff}
use native.Mathlib.Omega.{arith}
use crash_wave.Prelude.Lists.{length}
use crash_wave.Prelude.Tests.{if◌then◌else◌, is_some, Bool-cases}

module _ {V : Type 0} where
  absurd_none : {v : V} → some v ≡ none → ⊥
  absurd_none h = cc

  unfoldable pub get_key : String → List (String × V) → Option V
  get_key k [] = none
  get_key k ((k', v) ∷ m) = if str_eq k' k then some v else get_key k m

  unfoldable pub set_key : String → V → List (String × V) → List (String × V)
  set_key k v [] = (k, v) ∷ []
  set_key k v ((k', v') ∷ m) = if str_eq k' k then (k', v) ∷ m else (k', v') ∷ set_key k v m

  unfoldable pub delete_key : String → List (String × V) → List (String × V)
  delete_key k [] = []
  delete_key k ((k', v') ∷ m) =
      let rest = delete_key k m in if str_eq k' k then rest else (k', v') ∷ rest

  pub get-set_key :
      (k : String) (v : V) (m : List (String × V)) → get_key k (set_key k v m) ≡ some v
  unfolding get_key set_key
  get-set_key k v [] = rw ((eq_iff k k).1 refl) refl
  get-set_key k v ((k', v') ∷ m) = elim (Bool-cases (str_eq k' k)) [
    | inl hit ↦ rw (hit, hit) refl
    | inr miss ↦ rw (miss, miss) (get-set_key k v m)
  ]

  -- A key that is there stays there.
  pub get-set_keeps :
      (k j : String) (v : V) (m : List (String × V))
      → is_some (get_key k m) ≡ true
      → is_some (get_key k (set_key j v m)) ≡ true
  unfolding get_key set_key
  get-set_keeps k j v [] h = cc
  get-set_keeps k j v ((k', v') ∷ m) h = elim (Bool-cases (str_eq k' j)) [
    | inl hit ↦
        rw hit (elim (Bool-cases (str_eq k' k)) [ inl e ↦ rw e refl | inr e ↦ rw e (rw e at h) ])
    | inr miss ↦ rw miss (elim (Bool-cases (str_eq k' k)) [
      | inl e ↦ rw e refl
      | inr e ↦ rw e (get-set_keeps k j v m (rw e at h))
    ])
  ]

  -- A lookup after a write.
  pub get-set :
      (k j : String) (v : V) (m : List (String × V))
      → get_key j (set_key k v m) ≡ (if str_eq k j then some v else get_key j m)
  unfolding get_key set_key
  get-set k j v [] = refl
  get-set k j v ((i, w) ∷ m) = ground (arith, eq_iff k j, eq_iff i k, eq_iff i j, get-set k j v m)

  -- A new key goes to the end.
  pub set_key-new :
      (k : String) (v : V) (m : List (String × V))
      → get_key k m ≡ none
      → set_key k v m ≡ m ++ (k, v) ∷ []
  unfolding get_key set_key
  set_key-new k v [] h = refl
  set_key-new k v ((i, w) ∷ m) h = elim (Bool-cases (str_eq i k)) [
    | inl hit ↦ absurd (absurd_none (rw hit at h))
    | inr miss ↦
        rw miss (ap (λ (r : List (String × V)). (i, w) ∷ r) (set_key-new k v m (rw miss at h)))
  ]

  -- A key that is there is written in place.
  pub length-set_key :
      (k : String) (v w : V) (m : List (String × V))
      → get_key k m ≡ some w
      → length (set_key k v m) ≡ length m
  unfolding get_key set_key
  length-set_key k v w [] h = cc
  length-set_key k v w ((i, u) ∷ m) h = elim (Bool-cases (str_eq i k)) [
    | inl hit ↦ rw hit refl
    | inr miss ↦ rw miss (ap suc (length-set_key k v w m (rw miss at h)))
  ]

  -- A lookup after a deletion.
  pub get-delete_key :
      (k j : String) (m : List (String × V))
      → get_key j (delete_key k m) ≡ (if str_eq k j then none else get_key j m)
  unfolding get_key delete_key
  get-delete_key k j [] = ground arith
  get-delete_key k j ((i, w) ∷ m) =
      ground (arith, eq_iff k j, eq_iff i k, eq_iff i j, get-delete_key k j m)
