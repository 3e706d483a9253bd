-- ===== src/Wizards/Widgets/Laws.antt =====
-- Lists of choices and counters, as the forms of app/frontend change them.
use roost_assured.Common.{
  ℕ, zero, suc, ◌+◌, ◌-◌, ◌*◌, ◌/◌, ◌%◌, ◌<◌, ◌≡◌, refl, sym, ap, ◌∙◌, inl, inr, true, not, List,
  [], ◌∷◌, ◌++◌, arith, ltb, leb, if◌then◌else◌, ltb→lt, Bool-cases, Comparable, ◌==◌, number_key,
  string_key, contains, contains-append, contains-keep,
}
use roost_assured.Common.Sets.{Distinct, Distinct-snoc, Distinct-keep}
use roost_assured.Calendar.Dates.{text_of, decimal}
use roost_assured.Calendar.Picker.{back, forth}
use roost_assured.Wizards.Widgets.{toggle_in_list, parse_count, digits_from, adjust_count}

-- A click on a choice changes whether it is in the list, and says nothing of the others.
pub contains-toggle_in_list {ℓ} :
    {A : Type ℓ} ⦃e : Comparable A⦄ (list : List A) (value z : A)
    → contains (toggle_in_list list value) z
      ≡ (if z == value then not (contains list z) else contains list z)
unfolding toggle_in_list
contains-toggle_in_list ⦃e⦄ list value z = elim (Bool-cases (contains list value)) [
  | inl p ↦
      rw (p, contains-keep (λ v. not (v == value)) list z) (ground (arith, p, e.same_iff z value))
  | inr p ↦
      rw (p, contains-append list (value ∷ []) z)
        (ground (arith, p, e.same_iff z value, e.same_iff value z))
]

-- A list without repetitions stays one.
pub toggle_in_list-Distinct {ℓ} :
    {A : Type ℓ} ⦃e : Comparable A⦄ (list : List A) (value : A)
    → Distinct list
    → Distinct (toggle_in_list list value)
unfolding toggle_in_list
toggle_in_list-Distinct list value h = elim (Bool-cases (contains list value)) [
  | inl p ↦ rw p (Distinct-keep (λ v. not (v == value)) list h)
  | inr p ↦ rw p (Distinct-snoc list value h p)
]

-- 10 ^ f.
abbrev pow10 : ℕ → ℕ
pow10 zero = 1
pow10 (suc f) = 10 * pow10 f

snoc-append {ℓ} :
    {A : Type ℓ} (xs : List A) (y : A) (rest : List A) → (xs ++ y ∷ []) ++ rest ≡ xs ++ y ∷ rest
snoc-append [] y rest = refl
snoc-append (x ∷ xs) y rest = ap (λ zs. x ∷ zs) (snoc-append xs y rest)

digits_from-digit :
    (n d : ℕ) (rest : List ℕ)
    → d < 10
    → digits_from n ((48 + d) ∷ rest) ≡ digits_from (n * 10 + d) rest
unfolding digits_from
digits_from-digit n d rest h =
    let low : leb 48 (48 + d) ≡ true = ground arith in
    let high : leb (48 + d) 57 ≡ true = ground arith in
    let value : n * 10 + (48 + d - 48) ≡ n * 10 + d = omega arith in rw (low, high, value) refl

digits_from-decimal :
    (f n : ℕ) (rest : List ℕ)
    → n < pow10 f
    → digits_from 0 (decimal f n ++ rest) ≡ digits_from n rest
unfolding decimal
digits_from-decimal zero n rest h = ap (λ k. digits_from k rest) (omega arith)
digits_from-decimal (suc f) n rest h = elim (Bool-cases (ltb n 10)) [
  | inl p ↦
      rw (p, digits_from-digit 0 n rest (ltb→lt n 10 p))
        (ap (λ k. digits_from k rest) (omega arith))
  | inr p ↦
      rw
        (
          p,
          snoc-append (decimal f (n / 10)) (48 + n % 10) rest,
          digits_from-decimal f (n / 10) ((48 + n % 10) ∷ rest) (omega arith),
          digits_from-digit (n / 10) (n % 10) rest (omega arith),
        )
        (ap (λ k. digits_from k rest) (omega arith))
]

append-nil {ℓ} : {A : Type ℓ} (xs : List A) → xs ++ [] ≡ xs
append-nil [] = refl
append-nil (x ∷ xs) = ap (λ zs. x ∷ zs) (append-nil xs)

pub parse_count-text_of : (n : ℕ) → n < 10000000 → parse_count (text_of n) ≡ n
unfolding parse_count text_of digits_from
parse_count-text_of n h =
    sym (ap (λ t. digits_from 0 t) (append-nil (decimal 7 n))) ∙ digits_from-decimal 7 n [] h

-- For a count below 9999999 in the text of a counter: the button with the minus puts a text there
-- whose count is one less, or 0 if it was 0, the one with the plus a text whose count is one more.
pub parse_count-adjust_count :
    (text : List ℕ)
    → parse_count text < 9999999
    → (parse_count (adjust_count text back) ≡ parse_count text - 1)
      × (parse_count (adjust_count text forth) ≡ parse_count text + 1)
unfolding adjust_count
parse_count-adjust_count text h = (
  parse_count-text_of (parse_count text - 1) (omega arith),
  parse_count-text_of (parse_count text + 1) (omega arith),
)
