-- ===== src/Calendar/Texts.antt =====
-- The order of texts is linear, and `array.sort()` lists a set in it, in one way only.
use roost_assured.Common.{
  ℕ, ◌≡◌, refl, inl, inr, Bool, true, false, ◌||◌, List, [], ◌∷◌, arith, ltb, nat_beq,
  if◌then◌else◌, Bool-cases, ◌==◌, number_key, string_key, All, contains,
}
use roost_assured.Common.Text.{text_beq_iff, text_key}
use roost_assured.Common.Sets.{Distinct}

-- `<` on texts: by code units, from the left.
unfoldable pub text_lt : List ℕ → List ℕ → Bool
text_lt _ [] = false
text_lt [] (d ∷ ds) = true
text_lt (c ∷ cs) (d ∷ ds) = if nat_beq c d then text_lt cs ds else ltb c d

pub text_lt_irrefl : (cs : List ℕ) → text_lt cs cs ≡ false
unfolding text_lt
text_lt_irrefl [] = refl
text_lt_irrefl (c ∷ cs) = ground (arith, text_lt_irrefl cs)

pub text_lt_trans :
    (cs ds es : List ℕ) → text_lt cs ds ≡ true → text_lt ds es ≡ true → text_lt cs es ≡ true
unfolding text_lt
text_lt_trans cs [] es h k = ground arith
text_lt_trans cs (d ∷ ds) [] h k = ground arith
text_lt_trans [] (d ∷ ds) (e ∷ es) h k = refl
text_lt_trans (c ∷ cs) (d ∷ ds) (e ∷ es) h k = ground (arith, text_lt_trans cs ds es)

pub text_lt_total :
    (cs ds : List ℕ) → (cs == ds) ≡ false → text_lt cs ds ≡ false → text_lt ds cs ≡ true
unfolding text_lt
text_lt_total [] [] n h = cc
text_lt_total [] (d ∷ ds) n h = ground arith
text_lt_total (c ∷ cs) [] n h = refl
text_lt_total (c ∷ cs) (d ∷ ds) n h = ground (arith, text_lt_total cs ds)

insert_text : List ℕ → List (List ℕ) → List (List ℕ)
insert_text k [] = k ∷ []
insert_text k (x ∷ xs) = if text_lt x k then x ∷ insert_text k xs else k ∷ x ∷ xs

-- `array.sort()` on texts.
unfoldable pub sort : List (List ℕ) → List (List ℕ)
unfolding insert_text
sort [] = []
sort (x ∷ xs) = insert_text x (sort xs)

-- Each text comes before all that follow it.
abbrev pub IsAscending : List (List ℕ) → Type 0
IsAscending [] = Unit
IsAscending (x ∷ xs) = All (λ y. text_lt x y ≡ true) xs × IsAscending xs

contains-insert_text :
    (k : List ℕ) (xs : List (List ℕ)) (y : List ℕ)
    → contains (insert_text k xs) y ≡ k == y || contains xs y
unfolding insert_text
contains-insert_text k [] y = refl
contains-insert_text k (x ∷ xs) y = ground (arith, contains-insert_text k xs y)

pub contains-sort : (xs : List (List ℕ)) (y : List ℕ) → contains (sort xs) y ≡ contains xs y
unfolding sort
contains-sort [] y = refl
contains-sort (x ∷ xs) y = ground (arith, contains-insert_text x (sort xs) y, contains-sort xs y)

All-lt_trans :
    (k x : List ℕ) (xs : List (List ℕ))
    → text_lt k x ≡ true
    → All (λ y. text_lt x y ≡ true) xs
    → All (λ y. text_lt k y ≡ true) xs
All-lt_trans k x [] h a = tt
All-lt_trans k x (y ∷ ys) h a = (text_lt_trans k x y h a.0, All-lt_trans k x ys h a.1)

All-insert_text :
    (z k : List ℕ) (xs : List (List ℕ))
    → text_lt z k ≡ true
    → All (λ y. text_lt z y ≡ true) xs
    → All (λ y. text_lt z y ≡ true) (insert_text k xs)
unfolding insert_text
All-insert_text z k [] h a = (h, tt)
All-insert_text z k (x ∷ xs) h a = elim (Bool-cases (text_lt x k)) [
  | inl p ↦ rw p (a.0, All-insert_text z k xs h a.1)
  | inr p ↦ rw p (h, a)
]

insert_text-IsAscending :
    (k : List ℕ) (xs : List (List ℕ))
    → contains xs k ≡ false
    → IsAscending xs
    → IsAscending (insert_text k xs)
unfolding insert_text
insert_text-IsAscending k [] n a = (tt, tt)
insert_text-IsAscending k (x ∷ xs) n a = elim (Bool-cases (text_lt x k)) [
  | inl p ↦ rw p (All-insert_text x k xs p a.0, insert_text-IsAscending k xs (ground arith) a.1)
  | inr p ↦ rw p (
      let below = text_lt_total x k (ground arith) p in ((below, All-lt_trans k x xs below a.0), a))
]

-- What `sort` makes of a set is ascending.
pub sort-IsAscending : (xs : List (List ℕ)) → Distinct xs → IsAscending (sort xs)
unfolding sort
sort-IsAscending [] d = tt
sort-IsAscending (x ∷ xs) d =
    insert_text-IsAscending x (sort xs) (rw (contains-sort xs x) d.0) (sort-IsAscending xs d.1)

not-contains_of_All :
    (x : List ℕ) (xs : List (List ℕ)) → All (λ y. text_lt x y ≡ true) xs → contains xs x ≡ false
not-contains_of_All x [] a = refl
not-contains_of_All x (y ∷ ys) a =
    ground (arith, text_beq_iff y x, text_lt_irrefl x, not-contains_of_All x ys a.1)

-- An ascending list holds no text twice.
pub IsAscending-Distinct : (xs : List (List ℕ)) → IsAscending xs → Distinct xs
IsAscending-Distinct [] a = tt
IsAscending-Distinct (x ∷ xs) a = (not-contains_of_All x xs a.0, IsAscending-Distinct xs a.1)

contains_of_All :
    (x z : List ℕ) (xs : List (List ℕ))
    → All (λ y. text_lt x y ≡ true) xs
    → contains xs z ≡ true
    → text_lt x z ≡ true
contains_of_All x z [] a h = cc
contains_of_All x z (y ∷ ys) a h = ground (arith, text_beq_iff y z, contains_of_All x z ys a.1)

-- The heads of two ascending lists of the same texts are equal, and the tails hold the same texts.
module _ (x y : List ℕ) (xs ys : List (List ℕ)) where
  heads_eq :
      IsAscending (x ∷ xs)
      → IsAscending (y ∷ ys)
      → ((z : List ℕ) → contains (x ∷ xs) z ≡ contains (y ∷ ys) z)
      → x ≡ y
  heads_eq a b same = ground (
    arith,
    text_beq_iff x y,
    text_beq_iff y x,
    text_beq_iff x x,
    text_beq_iff y y,
    same x,
    same y,
    contains_of_All x y xs a.0,
    contains_of_All y x ys b.0,
    text_lt_trans x y x,
    text_lt_irrefl x,
  )

-- A set has one ascending list only: two such lists that hold the same texts are equal.
pub IsAscending-ext :
    (xs ys : List (List ℕ))
    → IsAscending xs
    → IsAscending ys
    → ((z : List ℕ) → contains xs z ≡ contains ys z)
    → xs ≡ ys
IsAscending-ext [] [] a b same = refl
IsAscending-ext [] (y ∷ ys) a b same = ground (arith, same y, text_beq_iff y y)
IsAscending-ext (x ∷ xs) [] a b same = ground (arith, same x, text_beq_iff x x)
IsAscending-ext (x ∷ xs) (y ∷ ys) a b same =
    let head = heads_eq x y xs ys a b same in
    let tail : xs ≡ ys = IsAscending-ext xs ys a.1 b.1 (λ z. ground (
      arith,
      head,
      same z,
      text_beq_iff x z,
      text_beq_iff y z,
      not-contains_of_All x xs a.0,
      not-contains_of_All y ys b.0,
    )) in
    cc (head, tail)
