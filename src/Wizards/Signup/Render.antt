-- ===== src/Wizards/Signup/Render.antt =====
-- What the form of app/frontend/pages/Signup.jsx draws, step by step. A field is one control that
-- shows its value; its `required` mark is kept.
pub mod Parts
use mathlib.Core.List.{flat_map}
use roost_assured.Common.{
  ℕ, zero, suc, ◌+◌, ◌-◌, ◌*◌, ◌/◌, ◌%◌, ◌≤◌, ◌<◌, String, ◌≡◌, refl, sym, ap, ◌∙◌, ◌≢◌, ◌↔◌, ◌⊎◌,
  inl, inr, Bool, true, false, not, ◌&&◌, ◌||◌, Option, none, some, List, [], ◌∷◌, ◌++◌, map, arith,
  ltb, leb, nat_beq, if◌then◌else◌, ltb→lt, lt→ltb, nat_beq_iff, Bool-cases, Option-cases,
  Comparable, ◌==◌, number_key, string_key, ==_refl, ==_false, ==_comm, length, All, keep, any,
  every, find, when, length-append, length-keep, keep-append, keep-keep, contains, contains-append,
  contains-keep, first_some, without, find_id, contains-map-without, find_id-without,
  find_id-append, find_id-eq-none, All-keep, All-append,
}
use roost_assured.Common.View.{
  Node, heading, words, shown, number, alert, child, field, checkbox, option, button, submit,
}
use roost_assured.Api.{join}
use roost_assured.Calendar.Picker.{Delta}
use roost_assured.Wizards.Options.{
  FlockSizeTier, SittingType, flock_size_tiers, sitting_types, coop_features, care_tasks,
}
use roost_assured.Wizards.Widgets.{render_checklist, render_stepper, step_bar}
use roost_assured.Wizards.SignupForm.{
  Form, TextField, ListField, CountField, flock_size_tier_field, sitting_type_field,
  coop_features_field, care_tasks_field, feeder_count_field, waterer_count_field,
}
use roost_assured.Wizards.Signup.{Wizard, steps, account_step, dates_step}

-- What a click does.
pub data SignupAction : Type 0 where
  close back_click skip_sitting_dates : SignupAction
  select_field : TextField → String → SignupAction
  toggle_in : ListField → String → SignupAction
  adjust : CountField → Delta → SignupAction

location_part : Form → List (Node SignupAction)
location_part form =
    heading "Where do you roost?"
    ∷ words "We'll use this to find sitters near your flock."
    ∷ field "city" form.city true
    ∷ field "state" form.state false
    ∷ field "zip_code" form.zip_code true
    ∷ []

tier_card : String → FlockSizeTier → List (Node SignupAction)
tier_card chosen tier =
    option tier.value (chosen == tier.value) (select_field flock_size_tier_field tier.value)
    ∷ words tier.range
    ∷ words tier.description
    ∷ []

tier_part : Form → List (Node SignupAction)
unfolding tier_card
tier_part form =
    heading "What's your chicken math?"
    ∷ words "Pick the size that's closest to your flock today."
    ∷ flat_map (tier_card form.flock_size_tier) flock_size_tiers

coop_part : Form → List (Node SignupAction)
coop_part form =
    heading "What's your coop setup?"
    ∷ words "Select everything that applies."
    ∷ render_checklist coop_features form.coop_features (toggle_in coop_features_field)

sitting_type_card : String → SittingType → List (Node SignupAction)
sitting_type_card chosen type =
    option type.value (chosen == type.value) (select_field sitting_type_field type.value)
    ∷ words type.description
    ∷ []

sitting_type_part : Form → List (Node SignupAction)
unfolding sitting_type_card
sitting_type_part form =
    heading "What kind of help do you need?"
    ∷ flat_map (sitting_type_card form.sitting_type) sitting_types

care_tasks_part : Form → List (Node SignupAction)
care_tasks_part form =
    heading "What would you like help with?"
    ∷ words
        "Build the visit checklist your sitter will follow — check off everything that applies to your flock."
    ∷ (render_checklist care_tasks form.care_tasks (toggle_in care_tasks_field)
        ++ (field "other_care_task" form.other_care_task false ∷ []))

feed_part : Form → List (Node SignupAction)
feed_part form =
    heading "Feed & water setup"
    ∷ words "Feeders"
    ∷ (render_stepper form.feeder_count (adjust feeder_count_field)
        ++ (words "Waterers"
            ∷ (render_stepper form.waterer_count (adjust waterer_count_field)
                ++ (field "feed_location" form.feed_location false
                    ∷ field "water_location" form.water_location false
                    ∷ []))))

special_requests_part : Form → List (Node SignupAction)
special_requests_part form =
    heading "Anything else a sitter should know?"
    ∷ words
        "Mention predators in the area, aggressive roosters, or other hazards a sitter should be prepared for."
    ∷ field "special_requests" form.special_requests false
    ∷ []

account_part : Form → List (Node SignupAction)
account_part form =
    heading "Create your account"
    ∷ field "name" form.name false
    ∷ field "email_address" form.email_address false
    ∷ field "phone_number" form.phone_number true
    ∷ field "address" form.address true
    ∷ field "password" form.password false
    ∷ field "password_confirmation" form.password_confirmation false
    ∷ checkbox "agreed_to_terms" form.agreed_to_terms
    ∷ words "I agree to the Terms of Service and Privacy Policy."
    ∷ []

dates_part : Form → List (Node SignupAction)
dates_part form =
    heading "When do you need a sitter?"
    ∷ words
        "Your account is set up — click days on the calendar, or use the fields on the right to fill a range. You can always change this later."
    ∷ child "CalendarPicker" (length form.sitting_dates)
    ∷ []

submit_label : ℕ → Bool → String
submit_label step submitting =
    if nat_beq step account_step
    then (if submitting then "Creating account…" else "Create account")
    else if nat_beq step dates_step
    then (if submitting then "Saving…" else "Save dates")
    else "Continue"

step_parts : ℕ → Form → List (Node SignupAction)
unfolding location_part tier_part tier_card coop_part sitting_type_part sitting_type_card
    care_tasks_part feed_part special_requests_part account_part dates_part
step_parts step form =
    when (nat_beq step 0) (location_part form)
    ++ (when (nat_beq step 1) (tier_part form)
        ++ (when (nat_beq step 2) (coop_part form)
            ++ (when (nat_beq step 3) (sitting_type_part form)
                ++ (when (nat_beq step 4) (care_tasks_part form)
                    ++ (when (nat_beq step 5) (feed_part form)
                        ++ (when (nat_beq step 6) (special_requests_part form)
                            ++ (when (nat_beq step account_step) (account_part form)
                                ++ when (nat_beq step dates_step) (dates_part form))))))))

top_part : Wizard → List (Node SignupAction)
top_part w =
    step_bar 0 (length steps) w.step
    ++ (button "Close" false close
        ∷ (when (ltb 0 (length w.errors)) (alert (join w.errors) ∷ [])
            ++ (words "Step" ∷ number (w.step + 1) ∷ words "of" ∷ number (length steps) ∷ [])))

bottom_part : Wizard → List (Node SignupAction)
unfolding submit_label
bottom_part w =
    when (ltb 0 w.step && ltb w.step dates_step) (button "Back" w.submitting back_click ∷ [])
    ++ (submit (submit_label w.step w.submitting) w.submitting
        ∷ when (nat_beq w.step dates_step)
            (button "Skip for now" w.submitting skip_sitting_dates ∷ []))

unfoldable pub render_signup : Wizard → List (Node SignupAction)
unfolding top_part step_parts bottom_part
render_signup w = top_part w ++ (step_parts w.step w.form ++ bottom_part w)
