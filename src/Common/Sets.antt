-- ===== src/Common/Sets.antt =====
-- The `Set` of the source: its values in the order of insertion, no value twice.
use mathlib.Core.Path.{◌≡◌, refl}
use mathlib.Core.Logic.{inl, inr}
use mathlib.Core.Bool.{Bool, false, not, ◌&&◌, ◌||◌}
use mathlib.Core.List.{List, [], ◌∷◌, ◌++◌}
use native.Mathlib.Omega.{arith}
use roost_assured.Common.Tests.{if◌then◌else◌, Comparable, ◌==◌, Bool-cases}
use roost_assured.Common.Lists.{contains, keep, contains-append, contains-keep}

module _ {ℓ} {A : Type ℓ} ⦃e : Comparable A⦄ where
  -- `set.add(value)`.
  unfoldable pub add : A → List A → List A
  add y xs = if contains xs y then xs else xs ++ y ∷ []

  -- `set.delete(value)`.
  unfoldable pub delete : A → List A → List A
  delete y xs = keep (λ x. not (x == y)) xs

  add_all : List A → List A → List A
  add_all xs [] = xs
  add_all xs (y ∷ ys) = add_all (add y xs) ys

  -- `Array.from(new Set(list))`.
  unfoldable pub set_of : List A → List A
  unfolding add_all add
  set_of ys = add_all [] ys

  -- No value stands twice.
  abbrev pub Distinct : List A → Type 0
  Distinct [] = Unit
  Distinct (x ∷ xs) = (contains xs x ≡ false) × Distinct xs

  pub contains-add : (y : A) (xs : List A) (z : A) → contains (add y xs) z ≡ y == z || contains xs z
  unfolding add
  contains-add y xs z = ground (arith, contains-append xs (y ∷ []) z, e.same_iff y z)

  pub contains-delete :
      (y : A) (xs : List A) (z : A) → contains (delete y xs) z ≡ not (z == y) && contains xs z
  unfolding delete
  contains-delete y xs z = contains-keep (λ x. not (x == y)) xs z

  pub Distinct-snoc :
      (xs : List A) (y : A) → Distinct xs → contains xs y ≡ false → Distinct (xs ++ y ∷ [])
  Distinct-snoc [] y d h = (refl, tt)
  Distinct-snoc (x ∷ xs) y d h = (
    ground (arith, contains-append xs (y ∷ []) x, e.same_iff x y, e.same_iff y x),
    Distinct-snoc xs y d.1 (ground arith),
  )

  pub Distinct-add : (y : A) (xs : List A) → Distinct xs → Distinct (add y xs)
  unfolding add
  Distinct-add y xs d = elim (Bool-cases (contains xs y)) [
    | inl old ↦ rw old d
    | inr fresh ↦ rw fresh (Distinct-snoc xs y d fresh)
  ]

  pub Distinct-keep : (test : A → Bool) (xs : List A) → Distinct xs → Distinct (keep test xs)
  Distinct-keep test [] d = tt
  Distinct-keep test (x ∷ xs) d = elim (Bool-cases (test x)) [
    | inl p ↦ rw p (ground (arith, contains-keep test xs x), Distinct-keep test xs d.1)
    | inr p ↦ rw p (Distinct-keep test xs d.1)
  ]

  pub Distinct-delete : (y : A) (xs : List A) → Distinct xs → Distinct (delete y xs)
  unfolding delete
  Distinct-delete y xs d = Distinct-keep (λ x. not (x == y)) xs d

  contains-add_all :
      (xs ys : List A) (z : A) → contains (add_all xs ys) z ≡ contains xs z || contains ys z
  unfolding add_all
  contains-add_all xs [] z = ground arith
  contains-add_all xs (y ∷ ys) z =
      ground (arith, contains-add_all (add y xs) ys z, contains-add y xs z)

  pub contains-set_of : (ys : List A) (z : A) → contains (set_of ys) z ≡ contains ys z
  unfolding set_of
  contains-set_of ys z = contains-add_all [] ys z

  Distinct-add_all : (xs ys : List A) → Distinct xs → Distinct (add_all xs ys)
  unfolding add_all
  Distinct-add_all xs [] d = d
  Distinct-add_all xs (y ∷ ys) d = Distinct-add_all (add y xs) ys (Distinct-add y xs d)

  pub Distinct-set_of : (ys : List A) → Distinct (set_of ys)
  unfolding set_of
  Distinct-set_of ys = Distinct-add_all [] ys tt

  -- `set.has(value) ? set.delete(value) : set.add(value)`.
  unfoldable pub flip : A → List A → List A
  flip y xs = if contains xs y then delete y xs else add y xs

  pub contains-flip :
      (y : A) (xs : List A) (z : A)
      → contains (flip y xs) z ≡ (if z == y then not (contains xs y) else contains xs z)
  unfolding flip
  contains-flip y xs z = elim (Bool-cases (contains xs y)) [
    | inl old ↦ rw (old, contains-delete y xs z) (ground (arith, e.same_iff z y))
    | inr fresh ↦ rw (fresh, contains-add y xs z) (ground (arith, e.same_iff z y, e.same_iff y z))
  ]

  pub Distinct-flip : (y : A) (xs : List A) → Distinct xs → Distinct (flip y xs)
  unfolding flip
  Distinct-flip y xs d = elim (Bool-cases (contains xs y)) [
    | inl old ↦ rw old (Distinct-delete y xs d)
    | inr fresh ↦ rw fresh (Distinct-add y xs d)
  ]
