-- ===== src/Home/Rating/Sent.antt =====
-- What the form to rate a sitter of app/frontend/pages/Home.jsx passes on.
use mathlib.Core.List.{foldl}
use roost_assured.Common.{
  ℕ, suc, ◌+◌, ◌≤◌, String, ◌≡◌, Bool, true, false, ◌||◌, List, [], ◌∷◌, arith, nat_beq,
  if◌then◌else◌, number_key, string_key, length, All, contains,
}
use roost_assured.Common.Tests.{if-cases}
use roost_assured.Home.Rating.{
  new_rate_form, rate_submit, rate_done, stars, after_submit, Rating, new_rating, RateEvent,
  star_clicked, hovered, reviewed, sent, settled, on_rating,
}

-- A rating of one to five stars.
abbrev pub IsStars : ℕ × String → Type 0
IsStars (n, review) = (1 ≤ n) × (n ≤ 5)

-- How often a promise of `onSubmit` has ended, from this many on.
abbrev after : ℕ → RateEvent → ℕ
after n settled = suc n
after n e = n

abbrev pub settled_count : ℕ → List RateEvent → ℕ
settled_count n [] = n
settled_count n (e ∷ es) = settled_count (after n e) es

abbrev pending : Bool → ℕ
pending b = if b then 1 else 0

pending-at_most : (b : Bool) → pending b ≤ 1
pending-at_most b = ground arith

-- After this many ended promises.
record IsSound (n : ℕ) (r : Rating) : Type 0 where
  chosen : r.form.rating ≤ 5
  all_stars : All IsStars r.passed_on
  one_at_once : length r.passed_on ≤ n + pending r.form.submitting

contains-stars : (n : ℕ) → contains stars n ≡ true → n ≤ 5
contains-stars n h = ground arith

not_none : (n : ℕ) → nat_beq n 0 ≡ false → 1 ≤ n
not_none n h = ground arith

after_submit-IsSound :
    (n : ℕ) (r : Rating)
    → nat_beq r.form.rating 0 || r.form.submitting ≡ false
    → IsSound n r
    → IsSound n (after_submit (rate_submit r.form) r)
unfolding rate_submit
after_submit-IsSound n r h s = simp (first_part h) record {
  chosen = s.chosen;
  all_stars = ((omega (arith, not_none r.form.rating (first_part h)), s.chosen), s.all_stars);
  one_at_once = ground (arith, s.one_at_once, h);
}
  where
    first_part :
        nat_beq r.form.rating 0 || r.form.submitting ≡ false → nat_beq r.form.rating 0 ≡ false
    first_part h = ground arith

on_rating-IsSound :
    (n : ℕ) (r : Rating) (e : RateEvent) → IsSound n r → IsSound (after n e) (on_rating r e)
unfolding on_rating rate_done
on_rating-IsSound n r (star_clicked k) s =
    if-cases (IsSound n) (contains stars k) _ r
      (λ p. record {
        chosen = contains-stars k p;
        all_stars = s.all_stars;
        one_at_once = s.one_at_once;
      })
      (λ p. s)
on_rating-IsSound n r (hovered k) s = record {
  chosen = s.chosen;
  all_stars = s.all_stars;
  one_at_once = s.one_at_once;
}
on_rating-IsSound n r (reviewed t) s = record {
  chosen = s.chosen;
  all_stars = s.all_stars;
  one_at_once = s.one_at_once;
}
on_rating-IsSound n r sent s =
    if-cases (IsSound n) (nat_beq r.form.rating 0 || r.form.submitting) r
      (after_submit (rate_submit r.form) r) (λ p. s) (λ p. after_submit-IsSound n r p s)
on_rating-IsSound n r settled s = record {
  chosen = s.chosen;
  all_stars = s.all_stars;
  one_at_once = ground (arith, s.one_at_once);
}

foldl-IsSound :
    (es : List RateEvent) (n : ℕ) (r : Rating)
    → IsSound n r
    → IsSound (settled_count n es) (foldl on_rating r es)
foldl-IsSound [] n r s = s
foldl-IsSound (e ∷ es) n r s =
    foldl-IsSound es (after n e) (on_rating r e) (on_rating-IsSound n r e s)

-- Whatever is done with the form to rate a sitter, each rating passed on is of one to five stars, and
-- at most one more is passed on than promises of `onSubmit` have ended.
pub ratings-IsStars :
    (es : List RateEvent)
    → All IsStars (foldl on_rating new_rating es).passed_on
      × (length (foldl on_rating new_rating es).passed_on ≤ suc (settled_count 0 es))
unfolding new_rate_form
ratings-IsStars es =
    let s =
      foldl-IsSound es 0 new_rating
        record { chosen = omega arith; all_stars = tt; one_at_once = omega arith } in
    (
      s.all_stars,
      omega (arith, s.one_at_once, pending-at_most (foldl on_rating new_rating es).form.submitting),
    )
