-- ===== src/Wizards/CareRequest/Render.antt =====
-- What the form of app/frontend/components/CareRequestModal.jsx draws.
use roost_assured.Common.{
  ℕ, ◌+◌, String, true, false, List, [], ◌∷◌, ◌++◌, ltb, nat_beq, if◌then◌else◌, number_key,
  string_key, length, when,
}
use roost_assured.Common.View.{Node, heading, words, number, alert, child, field, button, submit}
use roost_assured.Api.{join}
use roost_assured.Wizards.Options.{care_tasks}
use roost_assured.Wizards.Widgets.{render_checklist, step_bar}
use roost_assured.Wizards.CareRequest.{
  User, RequestForm, Modal, steps, last_step, step_offset, is_contact_step,
}

pub data RequestAction : Type 0 where
  close back_click : RequestAction
  toggle_task : String → RequestAction

contact_part : RequestForm → List (Node RequestAction)
contact_part form =
    heading "Confirm your contact info"
    ∷ words "A sitter needs this to actually show up — we'll save it to your profile."
    ∷ field "phone_number" form.phone_number true
    ∷ field "address" form.address true
    ∷ field "city" form.city true
    ∷ field "state" form.state true
    ∷ field "zip_code" form.zip_code true
    ∷ []

tasks_part : RequestForm → List (Node RequestAction)
tasks_part form =
    heading "New care request"
    ∷ words
        "Build the visit checklist your sitter will follow — check off everything that applies to your flock."
    ∷ (render_checklist care_tasks form.care_tasks toggle_task
        ++ (field "other_care_task" form.other_care_task false ∷ []))

special_requests_part : RequestForm → List (Node RequestAction)
special_requests_part form =
    heading "Anything else a sitter should know?"
    ∷ words
        "Mention predators in the area, aggressive roosters, or other hazards a sitter should be prepared for."
    ∷ field "special_requests" form.special_requests false
    ∷ []

dates_part : RequestForm → List (Node RequestAction)
dates_part form =
    heading "When do you need a sitter?"
    ∷ words "Click days on the calendar, or use the fields on the right to fill a range."
    ∷ child "CalendarPicker" (length form.sitting_dates)
    ∷ []

request_parts : User → ℕ → RequestForm → List (Node RequestAction)
unfolding contact_part tasks_part special_requests_part dates_part
request_parts u step form =
    when (is_contact_step u step) (contact_part form)
    ++ (when (nat_beq step (step_offset u)) (tasks_part form)
        ++ (when (nat_beq step (step_offset u + 1)) (special_requests_part form)
            ++ when (nat_beq step (last_step u)) (dates_part form)))

unfoldable pub render_care_request : User → Modal → List (Node RequestAction)
unfolding request_parts
render_care_request u m =
    step_bar 0 (length (steps u)) m.step
    ++ (button "Close" false close
        ∷ (when (ltb 0 (length m.errors)) (alert (join m.errors) ∷ [])
            ++ (words "Step"
                ∷ number (m.step + 1)
                ∷ words "of"
                ∷ number (length (steps u))
                ∷ (request_parts u m.step m.form
                    ++ (when (ltb 0 m.step) (button "Back" m.submitting back_click ∷ [])
                        ++ (submit
                              (if ltb m.step (last_step u)
                                then "Continue"
                                else if m.submitting
                                then "Submitting…"
                                else "Submit request")
                              m.submitting
                            ∷ []))))))
