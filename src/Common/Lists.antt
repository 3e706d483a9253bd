-- ===== src/Common/Lists.antt =====
-- Lists measured by native numbers, and the array methods that the source calls.
use Prim.Native.Nat.{ℕ, suc, ◌+◌, ◌≤◌}
use mathlib.Core.Path.{◌≡◌, refl}
use mathlib.Core.Logic.{inl, inr}
use mathlib.Core.Bool.{Bool, true, false, not, ◌&&◌, ◌||◌}
use mathlib.Core.Option.{Option, none, some}
use mathlib.Core.List.{List, [], ◌∷◌, ◌++◌, map, flat_map}
use native.Mathlib.Omega.{arith}
use roost_assured.Common.Tests.{if◌then◌else◌, Comparable, ◌==◌, number_key, Bool-cases}

module _ {ℓ} {A : Type ℓ} where
  abbrev pub length : List A → ℕ
  length [] = 0
  length (x ∷ xs) = suc (length xs)

  abbrev pub All {κ} : (A → Type κ) → List A → Type κ
  All P [] = Unit
  All P (x ∷ xs) = P x × All P xs

  -- `array.filter(test)`.
  abbrev pub keep : (A → Bool) → List A → List A
  keep test [] = []
  keep test (x ∷ xs) = if test x then x ∷ keep test xs else keep test xs

  -- `array.some(test)`.
  abbrev pub any : (A → Bool) → List A → Bool
  any test [] = false
  any test (x ∷ xs) = test x || any test xs

  -- `array.every(test)`.
  abbrev pub every : (A → Bool) → List A → Bool
  every test [] = true
  every test (x ∷ xs) = test x && every test xs

  -- `array.find(test)`.
  abbrev pub find : (A → Bool) → List A → Option A
  find test [] = none
  find test (x ∷ xs) = if test x then some x else find test xs

  -- `{condition && <…>}` and `...(condition ? items : [])`.
  abbrev pub when : Bool → List A → List A
  when true xs = xs
  when false xs = []

  pub length-append : (xs ys : List A) → length (xs ++ ys) ≡ length xs + length ys
  length-append [] ys = omega arith
  length-append (x ∷ xs) ys = omega (arith, length-append xs ys)

  pub length-keep : (test : A → Bool) (xs : List A) → length (keep test xs) ≤ length xs
  length-keep test [] = omega arith
  length-keep test (x ∷ xs) = ground (arith, length-keep test xs)

  pub keep-append :
      (test : A → Bool) (xs ys : List A) → keep test (xs ++ ys) ≡ keep test xs ++ keep test ys
  keep-append test [] ys = refl
  keep-append test (x ∷ xs) ys = ground (arith, keep-append test xs ys)

  pub any-append :
      (test : A → Bool) (xs ys : List A) → any test (xs ++ ys) ≡ any test xs || any test ys
  any-append test [] ys = refl
  any-append test (x ∷ xs) ys = ground (arith, any-append test xs ys)

  pub any-when :
      (test : A → Bool) (b : Bool) (xs : List A) → any test (when b xs) ≡ b && any test xs
  any-when test true xs = refl
  any-when test false xs = refl

  -- A test is met in a list just when it is met in one of its two parts.
  pub any-keep :
      (test part : A → Bool) (xs : List A)
      → any test (keep part xs) || any test (keep (λ x. not (part x)) xs) ≡ any test xs
  any-keep test part [] = refl
  any-keep test part (x ∷ xs) = ground (arith, any-keep test part xs)

  pub keep-keep : (test : A → Bool) (xs : List A) → keep test (keep test xs) ≡ keep test xs
  keep-keep test [] = refl
  keep-keep test (x ∷ xs) = ground (arith, keep-keep test xs)

module _ {ℓ} {A : Type ℓ} ⦃e : Comparable A⦄ where
  -- `array.includes(value)`.
  abbrev pub contains : List A → A → Bool
  contains [] y = false
  contains (x ∷ xs) y = x == y || contains xs y

  pub contains-append :
      (xs ys : List A) (y : A) → contains (xs ++ ys) y ≡ contains xs y || contains ys y
  contains-append [] ys y = refl
  contains-append (x ∷ xs) ys y = ground (arith, contains-append xs ys y)

  pub contains-keep :
      (test : A → Bool) (xs : List A) (y : A) → contains (keep test xs) y ≡ test y && contains xs y
  contains-keep test [] y = ground arith
  contains-keep test (x ∷ xs) y = ground (arith, contains-keep test xs y, e.same_iff x y)

pub any-flat_map {ℓ κ} :
    {A : Type ℓ} {B : Type κ} (test : B → Bool) (f : A → List B) (xs : List A)
    → any test (flat_map f xs) ≡ any (λ x. any test (f x)) xs
unfolding flat_map
any-flat_map test f [] = refl
any-flat_map test f (x ∷ xs) =
    rw (any-append test (f x) (flat_map f xs), any-flat_map test f xs) refl

-- What is equal on every element gives equal answers; so does what no element meets.
pub any-cong {ℓ} :
    {A : Type ℓ} (test other : A → Bool)
    → ((x : A) → test x ≡ other x)
    → (xs : List A) → any test xs ≡ any other xs
any-cong test other h [] = refl
any-cong test other h (x ∷ xs) = rw (h x, any-cong test other h xs) refl

pub any-none {ℓ} :
    {A : Type ℓ} (test : A → Bool)
    → ((x : A) → test x ≡ false)
    → (xs : List A) → any test xs ≡ false
any-none test h [] = refl
any-none test h (x ∷ xs) = rw (h x) (any-none test h xs)

pub any-empty {ℓ} :
    {A : Type ℓ} (test : A → Bool) (xs : List A) → length xs ≡ 0 → any test xs ≡ false
any-empty test [] h = refl
any-empty test (x ∷ xs) h = ground arith

pub any-keep-none {ℓ} :
    {A : Type ℓ} (test part : A → Bool)
    → ((x : A) → part x && test x ≡ false)
    → (xs : List A) → any test (keep part xs) ≡ false
any-keep-none test part h [] = refl
any-keep-none test part h (x ∷ xs) = ground (arith, h x, any-keep-none test part h xs)

abbrev pub first_some {ℓ} : {A : Type ℓ} → Option A → Option A → Option A
first_some none y = y
first_some (some x) y = some x

-- Lists of records that are told apart by a number, their id.
module _ {ℓ} {A : Type ℓ} (id : A → ℕ) where
  -- `array.filter((x) => x.id !== i)`.
  abbrev pub without : ℕ → List A → List A
  without i xs = keep (λ x. not (id x == i)) xs

  -- `array.find((x) => x.id === i)`.
  abbrev pub find_id : ℕ → List A → Option A
  find_id i xs = find (λ x. id x == i) xs

  pub contains-map-without :
      (i : ℕ) (xs : List A) (z : ℕ)
      → contains (map id (without i xs)) z ≡ not (z == i) && contains (map id xs) z
  contains-map-without i [] z = ground arith
  contains-map-without i (x ∷ xs) z = ground (arith, contains-map-without i xs z)

  pub find_id-without :
      (i : ℕ) (xs : List A) (z : ℕ)
      → find_id z (without i xs) ≡ (if z == i then none else find_id z xs)
  find_id-without i [] z = ground arith
  find_id-without i (x ∷ xs) z = ground (arith, find_id-without i xs z)

  pub find_id-append :
      (xs ys : List A) (z : ℕ) → find_id z (xs ++ ys) ≡ first_some (find_id z xs) (find_id z ys)
  find_id-append [] ys z = refl
  find_id-append (x ∷ xs) ys z = ground (arith, find_id-append xs ys z)

  pub find_id-eq-none : (xs : List A) (z : ℕ) → contains (map id xs) z ≡ false → find_id z xs ≡ none
  find_id-eq-none [] z h = refl
  find_id-eq-none (x ∷ xs) z h = ground (arith, find_id-eq-none xs z)

module _ {ℓ κ} {A : Type ℓ} (P : A → Type κ) where
  pub All-empty : (xs : List A) → length xs ≡ 0 → All P xs
  All-empty [] h = tt
  All-empty (x ∷ xs) h = ground arith

  pub All-keep : (test : A → Bool) (xs : List A) → All P xs → All P (keep test xs)
  All-keep test [] h = tt
  All-keep test (x ∷ xs) h = elim (Bool-cases (test x)) [
    | inl p ↦ rw p (h.0, All-keep test xs h.1)
    | inr p ↦ rw p (All-keep test xs h.1)
  ]

  pub All-append : (xs ys : List A) → All P xs → All P ys → All P (xs ++ ys)
  All-append [] ys h k = k
  All-append (x ∷ xs) ys h k = (h.0, All-append xs ys h.1 k)
