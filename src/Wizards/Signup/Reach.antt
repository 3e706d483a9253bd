-- ===== src/Wizards/Signup/Reach.antt =====
-- Whatever a visitor does with the form of app/frontend/pages/Signup.jsx.
use roost_assured.Common.{ℕ, String, ◌≡◌, refl, ◌∙◌, ◌⊎◌, inl, inr, number_key, string_key}
use roost_assured.Wizards.SignupForm.{Form, set_field, toggle_field, adjust_field, TextField}
use roost_assured.Wizards.Signup.Moves.{
  World, new_world, Move, typed, toggled, counted, agreed, picked, submitted, went_back, skipped,
  closed, answered_account, answered_dates, Moves, here, then_move, step_of_text,
}
use roost_assured.Wizards.Signup.Laws.{
  is_located, IsSound, new_world-IsSound, set_field-located, toggle_field-located,
  adjust_field-located, set_form-IsSound, leave-IsSound, go_back-IsSound, account_answered-IsSound,
  dates_answered-IsSound,
}
use roost_assured.Wizards.Signup.Submissions.{submit_form-IsSound}

kept_elsewhere :
    (n : ℕ) (f : TextField) (v : String) (form : Form)
    → n ≡ step_of_text f
    → (n ≡ 0) ⊎ (is_located (set_field f v form) ≡ is_located form)
kept_elsewhere n f v form e = elim (set_field-located f v form) [
  | inl z ↦ inl (e ∙ z)
  | inr same ↦ inr same
]

pub move-IsSound : {User : Type 0} {v w : World User} → Move v w → IsSound v → IsSound w
move-IsSound (typed w f v e) h =
    set_form-IsSound (set_field f v) w (kept_elsewhere w.wizard.step f v w.wizard.form e) h
move-IsSound (toggled w f v e) h =
    set_form-IsSound (toggle_field f v) w (inr (toggle_field-located f v w.wizard.form)) h
move-IsSound (counted w f delta e) h =
    set_form-IsSound (adjust_field f delta) w (inr (adjust_field-located f delta w.wizard.form)) h
move-IsSound (agreed w checked e) h =
    set_form-IsSound (λ form. record form { agreed_to_terms = checked }) w (inr refl) h
move-IsSound (picked w dates e) h =
    set_form-IsSound (λ form. record form { sitting_dates = dates }) w (inr refl) h
move-IsSound (submitted w idle) h = submit_form-IsSound w idle h
move-IsSound (went_back w idle late early) h = go_back-IsSound w idle early h
move-IsSound (skipped w idle e) h = leave-IsSound w h
move-IsSound (closed w) h = leave-IsSound w h
move-IsSound (answered_account w a r e) h = account_answered-IsSound w a r e h
move-IsSound (answered_dates w dates r e) h = dates_answered-IsSound w dates r e h

pub moves-IsSound : {User : Type 0} {v w : World User} → Moves v w → IsSound v → IsSound w
moves-IsSound (here w) h = h
moves-IsSound (then_move u v w ms m) h = move-IsSound m (moves-IsSound ms h)

-- In whatever state the moves of a visitor and the answers of the server bring the sign-up form:
-- its step is one of the nine; the steps after the first have a city, a state and a ZIP code; the
-- form is locked just while a request is under way, and the request belongs to the step shown; and
-- every form that was sent had its place and account filled in, its passwords equal and the terms
-- agreed to.
pub reached-IsSound : {User : Type 0} (w : World User) → Moves new_world w → IsSound w
reached-IsSound w ms = moves-IsSound ms new_world-IsSound
