-- ===== src/Wizards/Signup/Render/Parts.antt =====
-- The form of app/frontend/pages/Signup.jsx draws one part at a time.
use mathlib.Core.List.{flat_map}
use roost_assured.Common.{
  ℕ, zero, suc, ◌+◌, ◌≤◌, ◌≡◌, refl, ap, ◌∙◌, ◌⊎◌, inl, inr, Bool, true, false, ◌&&◌, List, [], ◌∷◌,
  ◌++◌, arith, ltb, nat_beq, Bool-cases, number_key, string_key, length, keep, when, keep-append,
}
use roost_assured.Common.View.{is_heading, words, number, alert, button}
use roost_assured.Api.{join}
use roost_assured.Wizards.Widgets.{render_checklist, render_stepper, step_bar}
use roost_assured.Wizards.SignupForm.{Form}
use roost_assured.Wizards.Signup.{Wizard, dates_step, steps}
use roost_assured.Wizards.Signup.Render.{
  SignupAction, render_signup, step_parts, location_part, tier_part, tier_card, coop_part,
  sitting_type_part, sitting_type_card, care_tasks_part, feed_part, special_requests_part,
  account_part, dates_part, top_part, bottom_part, skip_sitting_dates, close,
}

heading_at :
    (step : ℕ) (form : Form)
    → (step ≡ 0)
      ⊎ (step ≡ 1)
      ⊎ (step ≡ 2)
      ⊎ (step ≡ 3)
      ⊎ (step ≡ 4)
      ⊎ (step ≡ 5)
      ⊎ (step ≡ 6)
      ⊎ (step ≡ 7)
      ⊎ (step ≡ 8)
    → length (keep is_heading (step_parts step form)) ≡ 1
unfolding step_parts location_part tier_part tier_card coop_part sitting_type_part sitting_type_card
    care_tasks_part feed_part special_requests_part account_part dates_part render_checklist
    render_stepper flat_map
heading_at step form (inl e) = rw e refl
heading_at step form (inr (inl e)) = rw e refl
heading_at step form (inr (inr (inl e))) = rw e refl
heading_at step form (inr (inr (inr (inl e)))) = rw e refl
heading_at step form (inr (inr (inr (inr (inl e))))) = rw e refl
heading_at step form (inr (inr (inr (inr (inr (inl e)))))) = rw e refl
heading_at step form (inr (inr (inr (inr (inr (inr (inl e))))))) = rw e refl
heading_at step form (inr (inr (inr (inr (inr (inr (inr (inl e)))))))) = rw e refl
heading_at step form (inr (inr (inr (inr (inr (inr (inr (inr e)))))))) = rw e refl

one_heading :
    (step : ℕ) (form : Form)
    → step ≤ dates_step
    → length (keep is_heading (step_parts step form)) ≡ 1
one_heading step form h = heading_at step form (ground arith)

keep-step_bar : (i n step : ℕ) → keep is_heading (step_bar {A = SignupAction} i n step) ≡ []
unfolding step_bar
keep-step_bar i zero step = refl
keep-step_bar i (suc n) step = keep-step_bar (i + 1) n step

keep-when :
    {A : Type 0} (test : A → Bool) (b : Bool) (xs : List A)
    → keep test xs ≡ []
    → keep test (when b xs) ≡ []
keep-when test true xs e = e
keep-when test false xs e = refl

append-nil {ℓ} : {A : Type ℓ} (xs : List A) → xs ++ [] ≡ xs
append-nil [] = refl
append-nil (x ∷ xs) = ap (λ zs. x ∷ zs) (append-nil xs)

keep-around :
    {A : Type 0} (test : A → Bool) (xs ys zs : List A)
    → keep test xs ≡ []
    → keep test zs ≡ []
    → keep test (xs ++ (ys ++ zs)) ≡ keep test ys
keep-around test xs ys zs e f =
    rw (keep-append test xs (ys ++ zs), keep-append test ys zs, e, f, append-nil (keep test ys))
      refl

keep-top_part : (w : Wizard) → keep is_heading (top_part w) ≡ []
unfolding top_part
keep-top_part w =
    let bar = step_bar {A = SignupAction} 0 (length steps) w.step in
    let shown = when (ltb 0 (length w.errors)) (alert (join w.errors) ∷ []) in
    let count = words "Step" ∷ number (w.step + 1) ∷ words "of" ∷ number (length steps) ∷ [] in
    rw
      (
        keep-append is_heading bar (button "Close" false close ∷ (shown ++ count)),
        keep-append is_heading shown count,
        keep-step_bar 0 (length steps) w.step,
      )
      (ap (λ xs. xs ++ [])
        (keep-when is_heading (ltb 0 (length w.errors)) (alert (join w.errors) ∷ []) refl))

keep-bottom_part : (w : Wizard) → keep is_heading (bottom_part w) ≡ []
unfolding bottom_part
keep-bottom_part w = elim (Bool-cases (ltb 0 w.step && ltb w.step dates_step)) [
  | inl p ↦ rw p (
      keep-when is_heading (nat_beq w.step dates_step)
        (button "Skip for now" w.submitting skip_sitting_dates ∷ []) refl)
  | inr p ↦ rw p (
      keep-when is_heading (nat_beq w.step dates_step)
        (button "Skip for now" w.submitting skip_sitting_dates ∷ []) refl)
]

-- At each of the nine steps the form draws the part of that step and no other: there is one
-- heading on the page.
pub render_signup-one_heading :
    (w : Wizard) → w.step ≤ dates_step → length (keep is_heading (render_signup w)) ≡ 1
unfolding render_signup
render_signup-one_heading w h =
    ap length (
      keep-around is_heading (top_part w) (step_parts w.step w.form) (bottom_part w)
        (keep-top_part w) (keep-bottom_part w))
    ∙ one_heading w.step w.form h
