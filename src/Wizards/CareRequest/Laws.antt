-- ===== src/Wizards/CareRequest/Laws.antt =====
-- What a visitor has filled in before the form of app/frontend/components/CareRequestModal.jsx is
-- sent.
use roost_assured.Common.{
  ℕ, ◌+◌, ◌≤◌, String, ◌≡◌, refl, ◌⊎◌, inl, inr, Bool, true, false, none, some, List, [], ◌∷◌,
  arith, ltb, nat_beq, if◌then◌else◌, Bool-cases, Option-cases, number_key, string_key, All,
}
use roost_assured.Api.{Settled, fulfilled, rejected}
use roost_assured.Wizards.CareRequest.{
  User, RequestForm, last_step, step_offset, is_contact_step, RequestField, set_field,
  toggle_care_task, lacks_contact, validate_step, go_next, step_min, go_back, submit_start,
  submit_finish, on_form_submit, phone_number_field, address_field, city_field, state_field,
  zip_code_field, other_care_task_field, special_requests_field,
}
use roost_assured.Wizards.CareRequest.Runs.{
  RequestEvent, typed, toggled, picked, submitted, went_back, answered, shows_field, Run, edit,
  after, on_request,
}

-- The modal is at one of its steps, and past the one that asks for it the contact is there.
pub record IsReady (u : User) (r : Run) : Type 0 where
  pub in_range : r.modal.step ≤ last_step u
  pub reachable : (is_contact_step u r.modal.step ≡ true) ⊎ (lacks_contact r.modal.form ≡ false)
  pub complete : All (λ f. lacks_contact f ≡ false) r.sent

-- Edits, by whether they may touch the contact.
edit-IsReady :
    (u : User) (f : RequestForm → RequestForm) (r : Run)
    → (is_contact_step u r.modal.step ≡ true)
      ⊎ (lacks_contact (f r.modal.form) ≡ lacks_contact r.modal.form)
    → IsReady u r
    → IsReady u (edit f r)
edit-IsReady u f r kept h = record {
  in_range = h.in_range;
  reachable = ground (arith, h.reachable);
  complete = h.complete;
}

set_field-kept :
    (u : User) (f : RequestField) (v : String) (n : ℕ) (form : RequestForm)
    → shows_field u n f ≡ true
    → (is_contact_step u n ≡ true) ⊎ (lacks_contact (set_field f v form) ≡ lacks_contact form)
unfolding set_field
set_field-kept u phone_number_field v n form e = inl e
set_field-kept u address_field v n form e = inl e
set_field-kept u city_field v n form e = inl e
set_field-kept u state_field v n form e = inl e
set_field-kept u zip_code_field v n form e = inl e
set_field-kept u other_care_task_field v n form e = inr refl
set_field-kept u special_requests_field v n form e = inr refl

validated :
    (u : User) (n : ℕ) (form : RequestForm)
    → validate_step u n form ≡ none
    → (is_contact_step u n ≡ true) ⊎ (lacks_contact form ≡ false)
    → lacks_contact form ≡ false
unfolding validate_step
validated u n form v reached = ground arith

refused-IsReady :
    (u : User) (es : List String) (r : Run)
    → IsReady u r
    → IsReady u (after (record r.modal { errors = es }, none) r)
refused-IsReady u es r h = record {
  in_range = h.in_range;
  reachable = h.reachable;
  complete = h.complete;
}

advanced-IsReady :
    (u : User) (r : Run)
    → validate_step u r.modal.step r.modal.form ≡ none
    → IsReady u r
    → IsReady u (
        after
          (record r.modal { errors = []; step = step_min (r.modal.step + 1) (last_step u) }, none)
          r)
advanced-IsReady u r v h = record {
  in_range = ground arith;
  reachable = inr (validated u r.modal.step r.modal.form v h.reachable);
  complete = h.complete;
}

sent-IsReady :
    (u : User) (r : Run)
    → validate_step u r.modal.step r.modal.form ≡ none
    → IsReady u r
    → IsReady u (after (record r.modal { submitting = true; errors = [] }, some r.modal.form) r)
sent-IsReady u r v h = record {
  in_range = h.in_range;
  reachable = h.reachable;
  complete = (validated u r.modal.step r.modal.form v h.reachable, h.complete);
}

submitted-IsReady :
    (u : User) (r : Run) → IsReady u r → IsReady u (after (on_form_submit u r.modal) r)
unfolding on_form_submit go_next submit_start
submitted-IsReady u r h = elim (Bool-cases (ltb r.modal.step (last_step u))) [
  | inl early ↦ elim (Option-cases (validate_step u r.modal.step r.modal.form)) [
    | inl v ↦ rw (early, v) (advanced-IsReady u r v h)
    | inr (error, v) ↦ rw (early, v) (refused-IsReady u (error ∷ []) r h)
  ]
  | inr last ↦ elim (Option-cases (validate_step u r.modal.step r.modal.form)) [
    | inl v ↦ rw (last, v) (sent-IsReady u r v h)
    | inr (error, v) ↦ rw (last, v) (refused-IsReady u (error ∷ []) r h)
  ]
]

went_back-IsReady :
    (u : User) (r : Run) → IsReady u r → IsReady u (record r { modal = go_back r.modal })
unfolding go_back is_contact_step
went_back-IsReady u r h = record {
  in_range = omega (arith, h.in_range);
  reachable = ground (arith, h.reachable);
  complete = h.complete;
}

answered-IsReady :
    {U : Type 0} (u : User) (r : Run) (a : Settled U)
    → IsReady u r
    → IsReady u (record r { modal = (submit_finish a r.modal).0 })
unfolding submit_finish
answered-IsReady u r (fulfilled user) h = record {
  in_range = h.in_range;
  reachable = h.reachable;
  complete = h.complete;
}
answered-IsReady u r (rejected es) h = record {
  in_range = h.in_range;
  reachable = h.reachable;
  complete = h.complete;
}

either-IsReady :
    (u : User) (b : Bool) (r s : Run) → IsReady u r → IsReady u s → IsReady u (if b then r else s)
either-IsReady u true r s h k = h
either-IsReady u false r s h k = k

pub on_request-IsReady :
    {U : Type 0} (u : User) (r : Run) (e : RequestEvent U)
    → IsReady u r
    → IsReady u (on_request u r e)
unfolding on_request toggle_care_task
on_request-IsReady u r (typed f v) h = elim (Bool-cases (shows_field u r.modal.step f)) [
  | inl p ↦
      rw p (edit-IsReady u (set_field f v) r (set_field-kept u f v r.modal.step r.modal.form p) h)
  | inr p ↦ rw p h
]
on_request-IsReady u r (toggled v) h =
    either-IsReady u (nat_beq r.modal.step (step_offset u)) (edit (toggle_care_task v) r) r
      (edit-IsReady u (toggle_care_task v) r (inr refl) h) h
on_request-IsReady u r (picked ds) h =
    let f : RequestForm → RequestForm = λ form. record form { sitting_dates = ds } in
    either-IsReady u (nat_beq r.modal.step (last_step u)) (edit f r) r
      (edit-IsReady u f r (inr refl) h) h
on_request-IsReady u r submitted h =
    either-IsReady u r.modal.submitting r (after (on_form_submit u r.modal) r) h
      (submitted-IsReady u r h)
on_request-IsReady u r went_back h =
    either-IsReady u r.modal.submitting r (record r { modal = go_back r.modal }) h
      (went_back-IsReady u r h)
on_request-IsReady u r (answered a) h =
    either-IsReady u r.modal.submitting (record r { modal = (submit_finish a r.modal).0 }) r
      (answered-IsReady u r a h) h
