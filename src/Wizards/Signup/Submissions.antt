-- ===== src/Wizards/Signup/Submissions.antt =====
-- A submission of the form of app/frontend/pages/Signup.jsx, by the step that it is made at.
use roost_assured.Common.{
  ◌+◌, ◌<◌, String, ◌≡◌, refl, inl, inr, true, false, none, List, [], ◌∷◌, arith, nat_beq,
  Bool-cases, Option-cases, number_key, string_key,
}
use roost_assured.Wizards.SignupForm.{account_of}
use roost_assured.Wizards.Signup.{
  validate_step, on_form_submit, go_next, create_account_start, save_dates_start, no_call,
  registration, update_dates, account_step, dates_step,
}
use roost_assured.Wizards.Signup.Moves.{World, after, submit_form}
use roost_assured.Wizards.Signup.Laws.{IsSound, validate_account_lem}

module _ {User : Type 0} where
  refused-IsSound :
      (es : List String) (w : World User)
      → w.wizard.submitting ≡ false
      → IsSound w
      → IsSound (after (record w.wizard { errors = es }, no_call) w)
  refused-IsSound es w idle h = record {
    in_range = h.in_range;
    located = h.located;
    calling = idle;
    filled = h.filled;
    created = h.created;
    asked = h.asked;
  }

  advanced-IsSound :
      (w : World User)
      → w.wizard.submitting ≡ false
      → w.wizard.step < account_step
      → validate_step w.wizard.step w.wizard.form ≡ none
      → IsSound w
      → IsSound (after (record w.wizard { errors = []; step = w.wizard.step + 1 }, no_call) w)
  unfolding validate_step
  advanced-IsSound w idle early v h = record {
    in_range = omega (arith, early);
    located = inr (ground (arith, h.located, v, early));
    calling = idle;
    filled = h.filled;
    created = λ e. absurd (omega (arith, e, early));
    asked = h.asked;
  }

  sent-IsSound :
      (w : World User)
      → w.wizard.step ≡ account_step
      → validate_step w.wizard.step w.wizard.form ≡ none
      → IsSound w
      → IsSound (
          after
            (
              record w.wizard { submitting = true; errors = [] },
              registration (account_of w.wizard.form),
            )
            w)
  unfolding validate_step
  sent-IsSound w e v h = record {
    in_range = h.in_range;
    located = h.located;
    calling = (refl, e, omega arith);
    filled = (
      (ground (arith, h.located, e), ground (arith, e, v, validate_account_lem w.wizard.form)),
      h.filled,
    );
    created = h.created;
    asked = λ _. omega arith;
  }

  saved-IsSound :
      (w : World User)
      → w.wizard.step ≡ dates_step
      → IsSound w
      → IsSound (
          after
            (
              record w.wizard { submitting = true; errors = [] },
              update_dates w.wizard.form.sitting_dates,
            )
            w)
  saved-IsSound w e h = record {
    in_range = h.in_range;
    located = h.located;
    calling = (refl, e);
    filled = h.filled;
    created = h.created;
    asked = h.asked;
  }

  pub submit_form-IsSound :
      (w : World User) → w.wizard.submitting ≡ false → IsSound w → IsSound (submit_form w)
  unfolding submit_form on_form_submit create_account_start go_next save_dates_start
  submit_form-IsSound w idle h = elim (Bool-cases (nat_beq w.wizard.step account_step)) [
    | inl at_account ↦ elim (Option-cases (validate_step w.wizard.step w.wizard.form)) [
      | inl v ↦ rw (at_account, v) (sent-IsSound w (ground arith) v h)
      | inr (error, v) ↦ rw (at_account, v) (refused-IsSound (error ∷ []) w idle h)
    ]
    | inr before ↦ elim (Bool-cases (nat_beq w.wizard.step dates_step)) [
      | inl at_dates ↦ rw (before, at_dates) (saved-IsSound w (ground arith) h)
      | inr early ↦ elim (Option-cases (validate_step w.wizard.step w.wizard.form)) [
        | inl v ↦ rw (before, early, v) (advanced-IsSound w idle (ground (arith, h.in_range)) v h)
        | inr (error, v) ↦ rw (before, early, v) (refused-IsSound (error ∷ []) w idle h)
      ]
    ]
  ]
