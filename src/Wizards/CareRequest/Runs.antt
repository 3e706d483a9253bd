-- ===== src/Wizards/CareRequest/Runs.antt =====
-- What can happen to the form of app/frontend/components/CareRequestModal.jsx. The browser's checks
-- of `required` fields are left out, so there is more here than can really happen.
use roost_assured.Common.{
  ℕ, ◌+◌, String, Bool, Option, none, some, List, [], ◌∷◌, nat_beq, if◌then◌else◌, number_key,
  string_key,
}
use roost_assured.Api.{Settled}
use roost_assured.Wizards.CareRequest.{
  User, RequestForm, Modal, last_step, step_offset, is_contact_step, new_modal, RequestField,
  set_field, toggle_care_task, go_back, submit_finish, on_form_submit, other_care_task_field,
  special_requests_field,
}

pub data RequestEvent (U : Type 0) : Type 0 where
  typed : RequestField → String → RequestEvent U
  toggled : String → RequestEvent U
  picked : List (List ℕ) → RequestEvent U
  submitted went_back : RequestEvent U
  answered : Settled U → RequestEvent U

-- Whether the step shows the field.
abbrev pub shows_field : User → ℕ → RequestField → Bool
shows_field u step other_care_task_field = nat_beq step (step_offset u)
shows_field u step special_requests_field = nat_beq step (step_offset u + 1)
shows_field u step _ = is_contact_step u step

-- The modal, and the forms that were sent, the last first.
pub record Run : Type 0 where
  pub modal : Modal
  pub sent : List RequestForm

abbrev pub new_run : User → Run
new_run u = record { modal = new_modal u; sent = [] }

abbrev pub edit : (RequestForm → RequestForm) → Run → Run
edit f r = record r { modal = record r.modal { form = f r.modal.form } }

abbrev pub note_sent : Option RequestForm → List RequestForm → List RequestForm
note_sent none fs = fs
note_sent (some f) fs = f ∷ fs

abbrev pub after : Modal × Option RequestForm → Run → Run
after (m, call) r = record r { modal = m; sent = note_sent call r.sent }

-- An event that the modal does not offer in its state changes nothing.
unfoldable pub on_request : {U : Type 0} → User → Run → RequestEvent U → Run
unfolding on_form_submit submit_finish
on_request u r (typed f v) = if shows_field u r.modal.step f then edit (set_field f v) r else r
on_request u r (toggled v) =
    if nat_beq r.modal.step (step_offset u) then edit (toggle_care_task v) r else r
on_request u r (picked ds) =
    if nat_beq r.modal.step (last_step u)
    then edit (λ form. record form { sitting_dates = ds }) r
    else r
on_request u r submitted = if r.modal.submitting then r else after (on_form_submit u r.modal) r
on_request u r went_back = if r.modal.submitting then r else record r { modal = go_back r.modal }
on_request u r (answered a) =
    if r.modal.submitting then record r { modal = (submit_finish a r.modal).0 } else r

unfoldable pub on_requests : {U : Type 0} → User → Run → List (RequestEvent U) → Run
on_requests u r [] = r
on_requests u r (e ∷ es) = on_requests u (on_request u r e) es
