-- ===== src/Home/Rating.antt =====
-- The form to rate a sitter, `RateSitterForm` of app/frontend/pages/Home.jsx: its state, its
-- handlers and what can happen to it.
pub mod Sent
use roost_assured.Common.{
  ℕ, zero, suc, ◌+◌, ◌-◌, ◌*◌, ◌/◌, ◌%◌, ◌≤◌, ◌<◌, String, ◌≡◌, refl, sym, ap, ◌∙◌, ◌≢◌, ◌↔◌, ◌⊎◌,
  inl, inr, Bool, true, false, not, ◌&&◌, ◌||◌, Option, none, some, List, [], ◌∷◌, ◌++◌, map, arith,
  ltb, leb, nat_beq, if◌then◌else◌, ltb→lt, lt→ltb, nat_beq_iff, Bool-cases, Option-cases,
  Comparable, ◌==◌, number_key, string_key, ==_refl, ==_false, ==_comm, length, All, keep, any,
  every, find, when, length-append, length-keep, keep-append, keep-keep, contains, contains-append,
  contains-keep, first_some, without, find_id, contains-map-without, find_id-without,
  find_id-append, find_id-eq-none, All-keep, All-append,
}
use mathlib.Core.List.{flat_map}
use roost_assured.Common.View.{Node, words, field, button, submit, segment}

pub record RateForm : Type 0 where
  pub rating : ℕ
  pub hover_rating : ℕ
  pub review : String
  pub submitting : Bool

unfoldable pub new_rate_form : RateForm
new_rate_form = record { rating = 0; hover_rating = 0; review = ""; submitting = false }

-- `handleSubmit` up to `onSubmit`, and what it passes to it: nothing without a rating.
unfoldable pub rate_submit : RateForm → RateForm × Option (ℕ × String)
rate_submit f =
    if nat_beq f.rating 0
    then (f, none)
    else (record f { submitting = true }, some (f.rating, f.review))

-- The rest of `handleSubmit`; the promise of `onSubmit` does not fail.
unfoldable pub rate_done : RateForm → RateForm
rate_done f = record f { submitting = false }

pub data RateAction : Type 0 where
  set_rating set_hover : ℕ → RateAction

abbrev stars : List ℕ
stars = 1 ∷ 2 ∷ 3 ∷ 4 ∷ 5 ∷ []

-- Whether a star is lit: `n <= (hoverRating || rating)`.
unfoldable pub is_lit : RateForm → ℕ → Bool
is_lit f n = leb n (if nat_beq f.hover_rating 0 then f.rating else f.hover_rating)

unfoldable pub render_rate_form : RateForm → List (Node RateAction)
unfolding is_lit flat_map
render_rate_form f =
    words "How'd it go? Rate your sitter."
    ∷ (flat_map (λ n. segment (is_lit f n) ∷ button "★" false (set_rating n) ∷ []) stars
        ++ (field "review" f.review false
            ∷ submit (if f.submitting then "Saving…" else "Submit rating")
                (nat_beq f.rating 0 || f.submitting)
            ∷ []))

-- What the form offers: a star, the mouse on or off one, the text, the button that sends, unless it
-- is disabled, and the end of the promise of `onSubmit`.
pub data RateEvent : Type 0 where
  star_clicked hovered : ℕ → RateEvent
  reviewed : String → RateEvent
  sent settled : RateEvent

-- The form, and what it passed on, the last first.
pub record Rating : Type 0 where
  pub form : RateForm
  pub passed_on : List (ℕ × String)

abbrev pub new_rating : Rating
new_rating = record { form = new_rate_form; passed_on = [] }

abbrev after_submit : RateForm × Option (ℕ × String) → Rating → Rating
after_submit (f, none) r = record r { form = f }
after_submit (f, some passed) r = record { form = f; passed_on = passed ∷ r.passed_on }

unfoldable pub on_rating : Rating → RateEvent → Rating
unfolding rate_submit rate_done
on_rating r (star_clicked n) =
    if contains stars n then record r { form = record r.form { rating = n } } else r
on_rating r (hovered n) = record r { form = record r.form { hover_rating = n } }
on_rating r (reviewed t) = record r { form = record r.form { review = t } }
on_rating r sent =
    if nat_beq r.form.rating 0 || r.form.submitting then r else after_submit (rate_submit r.form) r
on_rating r settled = record r { form = rate_done r.form }
