-- ===== src/Calendar/Dates/Keys.antt =====
-- Keys of dates: they are compared as the dates are, and no two dates share one.
use roost_assured.Common.{
  ℕ, ◌+◌, ◌*◌, ◌/◌, ◌%◌, ◌≤◌, ◌<◌, ◌≡◌, refl, ap, false, not, ◌&&◌, some, List, [], ◌∷◌, ◌++◌,
  arith, ltb, nat_beq, if◌then◌else◌, ◌==◌, number_key, string_key,
}
use mathlib.Core.List.{append-nil}
use roost_assured.Calendar.Texts.{text_lt, text_lt_irrefl}
use roost_assured.Calendar.Dates.{
  LocalDate, month_length, date_lt, text_of, pad_start, decimal, to_date_key, IsDate, split_dash,
  number_from, parse_date_key, read_date, full_year,
}
use roost_assured.Common.Text.{text_beq, text_key, text_beq_iff}

abbrev two_digits : ℕ → List ℕ → List ℕ
two_digits n rest = (48 + n / 10) ∷ (48 + n % 10) ∷ rest

pad_start-text_of :
    (n : ℕ) (rest : List ℕ) → n < 100 → pad_start (text_of n) ++ rest ≡ two_digits n rest
unfolding text_of pad_start decimal
pad_start-text_of n rest h = ground arith

text_of_year :
    (y : ℕ) (rest : List ℕ)
    → 1000 ≤ y
    → y ≤ 9999
    → text_of y ++ rest ≡ two_digits (y / 100) (two_digits (y % 100) rest)
unfolding text_of decimal
text_of_year y rest lo hi = ground arith

date-le_31 : (t : LocalDate) → IsDate t → t.date ≤ 31
unfolding month_length
date-le_31 t v = ground arith

-- The first two digits that differ decide.
text_lt-two_digits :
    (n m : ℕ) (xs ys : List ℕ)
    → n < 100
    → m < 100
    → text_lt (two_digits n xs) (two_digits m ys) ≡ (if nat_beq n m then text_lt xs ys else ltb n m)
unfolding text_lt
text_lt-two_digits n m xs ys h k = ground arith

abbrev spelled : LocalDate → List ℕ
spelled t =
    two_digits (t.year / 100)
      (two_digits (t.year % 100) (b'-' ∷ two_digits (t.month + 1) (b'-' ∷ two_digits t.date [])))

to_date_key-spelled : (t : LocalDate) → IsDate t → to_date_key t ≡ spelled t
unfolding to_date_key
to_date_key-spelled t v = rw (text_of_year t.year _ v.year_in.0 v.year_in.1) (
    rw (pad_start-text_of (t.month + 1) _ (omega arith)) (
      rw (← append-nil (pad_start (text_of t.date)))
        (rw (pad_start-text_of t.date [] (omega (arith, date-le_31 t v))))))

text_lt-cons_self : (c : ℕ) (xs ys : List ℕ) → text_lt (c ∷ xs) (c ∷ ys) ≡ text_lt xs ys
unfolding text_lt
text_lt-cons_self c xs ys = ground arith

text_lt-nil : text_lt [] [] ≡ false
unfolding text_lt
text_lt-nil = refl

-- The order of two spelled dates, two digits at a time.
text_lt-date :
    (a b : LocalDate)
    → IsDate a
    → IsDate b
    → text_lt
        (two_digits (a.month + 1) (b'-' ∷ two_digits a.date []))
        (two_digits (b.month + 1) (b'-' ∷ two_digits b.date []))
      ≡ (if nat_beq a.month b.month then ltb a.date b.date else ltb a.month b.month)
text_lt-date a b va vb =
    rw (text_lt-two_digits (a.month + 1) (b.month + 1) _ _ (omega arith) (omega arith)) (
      rw (text_lt-cons_self b'-') (
        rw
          (text_lt-two_digits a.date b.date [] [] (omega (arith, date-le_31 a va))
            (omega (arith, date-le_31 b vb)))
          (rw text_lt-nil (ground arith))))

spelled-lt : (a b : LocalDate) → IsDate a → IsDate b → text_lt (spelled a) (spelled b) ≡ date_lt a b
unfolding date_lt
spelled-lt a b va vb =
    rw (text_lt-two_digits (a.year / 100) (b.year / 100) _ _ (omega arith) (omega arith)) (
      rw (text_lt-two_digits (a.year % 100) (b.year % 100) _ _ (omega arith) (omega arith))
        (rw (text_lt-cons_self b'-') (rw (text_lt-date a b va vb) (ground arith))))

-- Keys of dates with four-digit years are ordered as text just as the dates are in time.
pub to_date_key-lt :
    (a b : LocalDate) → IsDate a → IsDate b → text_lt (to_date_key a) (to_date_key b) ≡ date_lt a b
to_date_key-lt a b va vb =
    rw (to_date_key-spelled a va, to_date_key-spelled b vb) (spelled-lt a b va vb)

spelled_inj : (a b : LocalDate) → spelled a ≡ spelled b → a ≡ b
spelled_inj a b h = ground arith

-- No two of them share a key.
pub to_date_key_inj :
    (a b : LocalDate) → IsDate a → IsDate b → to_date_key a ≡ to_date_key b → a ≡ b
to_date_key_inj a b va vb h =
    spelled_inj a b (rw (to_date_key-spelled a va, to_date_key-spelled b vb) at h)

date_eq : (a b : LocalDate) → date_lt a b ≡ false → date_lt b a ≡ false → a ≡ b
unfolding date_lt
date_eq a b h k = ground arith

date_lt_irrefl : (a : LocalDate) → date_lt a a ≡ false
unfolding date_lt
date_lt_irrefl a = ground arith

pub to_date_key-== :
    (a b : LocalDate)
    → IsDate a
    → IsDate b
    → (to_date_key a == to_date_key b) ≡ not (date_lt a b) && not (date_lt b a)
to_date_key-== a b va vb = ground (
  arith,
  text_beq_iff (to_date_key a) (to_date_key b),
  to_date_key_inj a b va vb,
  date_eq a b,
  to_date_key-lt a b va vb,
  to_date_key-lt b a vb va,
  text_lt_irrefl (to_date_key a),
  text_lt_irrefl (to_date_key b),
)

split_dash-two_digits :
    (n : ℕ) (cs part : List ℕ) (parts : List (List ℕ))
    → split_dash cs ≡ part ∷ parts
    → split_dash (two_digits n cs) ≡ two_digits n part ∷ parts
unfolding split_dash
split_dash-two_digits n cs part parts h = rw h (ground arith)

split_dash-dash :
    (cs part : List ℕ) (parts : List (List ℕ))
    → split_dash cs ≡ part ∷ parts
    → split_dash (b'-' ∷ cs) ≡ [] ∷ part ∷ parts
unfolding split_dash
split_dash-dash cs part parts h = rw h

split_dash-nil : split_dash [] ≡ [] ∷ []
unfolding split_dash
split_dash-nil = refl

number_from-two_digits :
    (a n : ℕ) (cs : List ℕ) → number_from a (two_digits n cs) ≡ number_from (a * 100 + n) cs
unfolding number_from
number_from-two_digits a n cs = ap (λ k. number_from k cs) (omega arith)

number_from-nil : (a : ℕ) → number_from a [] ≡ a
unfolding number_from
number_from-nil a = refl

split_dash-spelled :
    (t : LocalDate)
    → split_dash (spelled t)
      ≡ two_digits (t.year / 100) (two_digits (t.year % 100) [])
        ∷ two_digits (t.month + 1) []
        ∷ two_digits t.date []
        ∷ []
split_dash-spelled t = split_dash-two_digits _ _ _ _ (
    split_dash-two_digits _ _ _ _ (
      split_dash-dash _ _ _ (
        split_dash-two_digits _ _ _ _
          (split_dash-dash _ _ _ (split_dash-two_digits _ _ _ _ split_dash-nil)))))

pub read-to_date_key : (t : LocalDate) → IsDate t → read_date (to_date_key t) ≡ some t
unfolding read_date
read-to_date_key t v =
    rw (to_date_key-spelled t v, split_dash-spelled t)
      (simp (number_from-two_digits, number_from-nil) (ground arith))

-- Reading the key of a date that the calendar has, with a year of four digits, gives the date back.
pub parse-to_date_key : (t : LocalDate) → IsDate t → parse_date_key (to_date_key t) ≡ some t
unfolding parse_date_key full_year
parse-to_date_key t v =
    rw (to_date_key-spelled t v, split_dash-spelled t)
      (simp (number_from-two_digits, number_from-nil) (ground (arith, v.year_in)))

pub to_date_key-ne-nil : (t : LocalDate) → IsDate t → text_beq (to_date_key t) [] ≡ false
to_date_key-ne-nil t v = rw (to_date_key-spelled t v)
