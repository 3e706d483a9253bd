-- ===== src/Wizards/Signup/Laws.antt =====
-- What holds of the form of app/frontend/pages/Signup.jsx at any time, and the moves other than a
-- submission that keep it.
use roost_assured.Common.{
  ℕ, ◌≤◌, ◌<◌, String, ◌≡◌, refl, ◌↔◌, ◌⊎◌, inl, inr, Bool, true, false, not, ◌&&◌, none, List,
  arith, ◌==◌, number_key, string_key, length, All,
}
use roost_assured.Common.Text.{is_empty}
use roost_assured.Api.{Settled, fulfilled, rejected}
use roost_assured.Api.Laws.{is_some}
use roost_assured.Wizards.SignupForm.{
  Form, Account, set_field, toggle_field, adjust_field, TextField, ListField, CountField,
  city_field, state_field, zip_code_field, flock_size_tier_field, sitting_type_field,
  other_care_task_field, feed_location_field, water_location_field, special_requests_field,
  coop_features_field, care_tasks_field, name_field, email_address_field, phone_number_field,
  address_field, password_field, password_confirmation_field, feeder_count_field,
  waterer_count_field,
}
use roost_assured.Wizards.Signup.{
  Wizard, Call, validate_account, go_back, create_account_finish, save_dates_finish, no_call,
  registration, update_dates, account_step, dates_step,
}
use roost_assured.Calendar.Picker.{Delta}
use roost_assured.Wizards.Signup.Moves.{
  World, new_world, set_form, leave, account_answered, dates_answered, step_of_text,
}

-- The place is filled in; the account can be created.
abbrev pub is_located : Form → Bool
is_located f = not (is_empty f.city) && (not (is_empty f.state) && not (is_empty f.zip_code))

abbrev pub is_registrable : Form → Bool
is_registrable f =
    not (is_empty f.name)
    && (not (is_empty f.email_address)
        && (not (is_empty f.phone_number)
            && (not (is_empty f.address)
                && (not (is_empty f.password)
                    && (not (is_empty f.password_confirmation)
                        && ((f.password == f.password_confirmation) && f.agreed_to_terms))))))

-- The request under way belongs to the step, and the form says so.
abbrev pub IsCalling : Call → Wizard → List Form → Type 0
IsCalling no_call w fs = w.submitting ≡ false
IsCalling (registration a) w fs = (w.submitting ≡ true) × (w.step ≡ account_step) × (0 < length fs)
IsCalling (update_dates ds) w fs = (w.submitting ≡ true) × (w.step ≡ dates_step)

abbrev pub IsFilled : Form → Type 0
IsFilled f = (is_located f ≡ true) × (is_registrable f ≡ true)

pub record IsSound {User : Type 0} (w : World User) : Type 0 where
  pub in_range : w.wizard.step ≤ dates_step
  pub located : (w.wizard.step ≡ 0) ⊎ (is_located w.wizard.form ≡ true)
  pub calling : IsCalling w.in_flight w.wizard w.registered
  pub filled : All IsFilled w.registered
  pub created : (w.wizard.step ≡ dates_step) → is_some w.user ≡ true
  pub asked : is_some w.user ≡ true → 0 < length w.registered

pub validate_account_lem : (f : Form) → (validate_account f ≡ none) ↔ (is_registrable f ≡ true)
unfolding validate_account
validate_account_lem f = ground arith

pub new_world-IsSound : {User : Type 0} → IsSound (new_world {User = User})
unfolding new_world
new_world-IsSound = record {
  in_range = omega arith;
  located = inl refl;
  calling = refl;
  filled = tt;
  created = λ h. ground arith;
  asked = λ h. ground arith;
}

pub set_field-located :
    (f : TextField) (v : String) (form : Form)
    → (step_of_text f ≡ 0) ⊎ (is_located (set_field f v form) ≡ is_located form)
unfolding set_field
set_field-located city_field v form = inl refl
set_field-located state_field v form = inl refl
set_field-located zip_code_field v form = inl refl
set_field-located flock_size_tier_field v form = inr refl
set_field-located sitting_type_field v form = inr refl
set_field-located other_care_task_field v form = inr refl
set_field-located feed_location_field v form = inr refl
set_field-located water_location_field v form = inr refl
set_field-located special_requests_field v form = inr refl
set_field-located name_field v form = inr refl
set_field-located email_address_field v form = inr refl
set_field-located phone_number_field v form = inr refl
set_field-located address_field v form = inr refl
set_field-located password_field v form = inr refl
set_field-located password_confirmation_field v form = inr refl

pub toggle_field-located :
    (f : ListField) (v : String) (form : Form)
    → is_located (toggle_field f v form) ≡ is_located form
unfolding toggle_field
toggle_field-located coop_features_field v form = refl
toggle_field-located care_tasks_field v form = refl

pub adjust_field-located :
    (f : CountField) (delta : Delta) (form : Form)
    → is_located (adjust_field f delta form) ≡ is_located form
unfolding adjust_field
adjust_field-located feeder_count_field delta form = refl
adjust_field-located waterer_count_field delta form = refl

idle_call :
    (c : Call) (w : Wizard) (fs : List Form) → w.submitting ≡ false → IsCalling c w fs → c ≡ no_call
idle_call no_call w fs idle k = refl
idle_call (registration a) w fs idle k = ground (arith, k.0)
idle_call (update_dates ds) w fs idle k = ground (arith, k.0)

module _ {User : Type 0} where
  -- An edit that keeps the place, or is made while the place is asked for.
  pub set_form-IsSound :
      (f : Form → Form) (w : World User)
      → (w.wizard.step ≡ 0) ⊎ (is_located (f w.wizard.form) ≡ is_located w.wizard.form)
      → IsSound w
      → IsSound (set_form f w)
  set_form-IsSound f w kept h = record {
    in_range = h.in_range;
    located = ground (arith, h.located);
    calling = same_calling w.in_flight h.calling;
    filled = h.filled;
    created = h.created;
    asked = h.asked;
  }
    where
      same_calling :
          (c : Call)
          → IsCalling c w.wizard w.registered
          → IsCalling c (set_form f w).wizard w.registered
      same_calling no_call k = k
      same_calling (registration a) k = k
      same_calling (update_dates ds) k = k

  pub leave-IsSound : (w : World User) → IsSound w → IsSound (leave w)
  unfolding leave
  leave-IsSound w h = record {
    in_range = h.in_range;
    located = h.located;
    calling = h.calling;
    filled = h.filled;
    created = h.created;
    asked = h.asked;
  }

  pub go_back-IsSound :
      (w : World User)
      → w.wizard.submitting ≡ false
      → w.wizard.step < dates_step
      → IsSound w
      → IsSound (record w { wizard = go_back w.wizard })
  unfolding go_back
  go_back-IsSound w idle early h = record {
    in_range = omega (arith, early);
    located = elim h.located [ inl z ↦ inl (omega (arith, z)) | inr l ↦ inr l ];
    calling = rw (idle_call w.in_flight w.wizard w.registered idle h.calling) idle;
    filled = h.filled;
    created = λ e. absurd (omega (arith, e, early));
    asked = h.asked;
  }

  pub account_answered-IsSound :
      (w : World User) (a : Account) (r : Settled User)
      → w.in_flight ≡ registration a
      → IsSound w
      → IsSound (account_answered r w)
  unfolding account_answered create_account_finish
  account_answered-IsSound w a (fulfilled user) e h =
      let k : IsCalling (registration a) w.wizard w.registered = rw e at h.calling in
      record {
        in_range = omega arith;
        located = elim h.located [ inl z ↦ absurd (omega (arith, z, k.1)) | inr l ↦ inr l ];
        calling = refl;
        filled = h.filled;
        created = λ _. refl;
        asked = λ _. k.2;
      }
  account_answered-IsSound w a (rejected es) e h = record {
    in_range = h.in_range;
    located = h.located;
    calling = refl;
    filled = h.filled;
    created = h.created;
    asked = h.asked;
  }

  pub dates_answered-IsSound :
      (w : World User) (dates : List (List ℕ)) (r : Settled User)
      → w.in_flight ≡ update_dates dates
      → IsSound w
      → IsSound (dates_answered r w)
  unfolding dates_answered save_dates_finish
  dates_answered-IsSound w ds (fulfilled user) e h =
      let k : IsCalling (update_dates ds) w.wizard w.registered = rw e at h.calling in
      record {
        in_range = h.in_range;
        located = h.located;
        calling = refl;
        filled = h.filled;
        created = λ _. refl;
        asked = λ _. h.asked (h.created k.1);
      }
  dates_answered-IsSound w ds (rejected es) e h = record {
    in_range = h.in_range;
    located = h.located;
    calling = refl;
    filled = h.filled;
    created = h.created;
    asked = h.asked;
  }
