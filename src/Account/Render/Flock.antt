-- ===== src/Account/Render/Flock.antt =====
-- The section of the flock and coop of the page of app/frontend/pages/Account.jsx.
use mathlib.Core.List.{flat_map}
use roost_assured.Common.{
  String, false, List, [], ◌∷◌, ◌++◌, if◌then◌else◌, ◌==◌, number_key, string_key,
}
use roost_assured.Common.View.{Node, heading, words, field, option, button, submit}
use roost_assured.Calendar.Picker.{back, forth}
use roost_assured.Wizards.Options.{
  FlockSizeTier, SittingType, flock_size_tiers, coop_features, sitting_types, care_tasks,
}
use roost_assured.Wizards.Widgets.{render_checklist}
use roost_assured.Account.{Value, text, Field, Values, list_of, count_of, Page}
use roost_assured.Account.Render.SitterForms.{AccountAction, edit_field, toggle_value, step_count}

-- `form[name] || ""`.
abbrev pub shown_value : Value → String
shown_value (text t) = t
shown_value _ = ""

tier_card : Value → FlockSizeTier → List (Node AccountAction)
tier_card chosen tier =
    option tier.value (shown_value chosen == tier.value)
      (edit_field Field.flock_size_tier tier.value)
    ∷ words tier.range
    ∷ words tier.description
    ∷ []

type_card : Value → SittingType → List (Node AccountAction)
type_card chosen type =
    option type.value (shown_value chosen == type.value) (edit_field Field.sitting_type type.value)
    ∷ words type.description
    ∷ []

-- `Stepper`, of a value that may be a number.
stepper : Field → Value → List (Node AccountAction)
stepper f value =
    button "–" false (step_count f back)
    ∷ Node.number (count_of value)
    ∷ button "+" false (step_count f forth)
    ∷ []

unfoldable pub flock_part : Page → Values → List (Node AccountAction)
unfolding tier_card type_card stepper
flock_part p form =
    heading "Flock & coop"
    ∷ words "Chicken math"
    ∷ (flat_map (tier_card (form Field.flock_size_tier)) flock_size_tiers
        ++ (words "Coop setup"
            ∷ (render_checklist coop_features (list_of (form Field.coop_features))
                  (toggle_value Field.coop_features)
                ++ (words "What kind of help do you need?"
                    ∷ (flat_map (type_card (form Field.sitting_type)) sitting_types
                        ++ (words "What should a sitter handle?"
                            ∷ (render_checklist care_tasks (list_of (form Field.care_tasks))
                                  (toggle_value Field.care_tasks)
                                ++ (field "other_care_task"
                                      (shown_value (form Field.other_care_task)) false
                                    ∷ (stepper Field.feeder_count (form Field.feeder_count)
                                        ++ (stepper Field.waterer_count (form Field.waterer_count)
                                            ++ (field "feed_location"
                                                  (shown_value (form Field.feed_location)) false
                                                ∷ field "water_location"
                                                    (shown_value (form Field.water_location)) false
                                                ∷ field "special_requests"
                                                    (shown_value (form Field.special_requests))
                                                    false
                                                ∷ submit
                                                    (if p.submitting
                                                      then "Saving…"
                                                      else "Save flock & coop details")
                                                    p.submitting
                                                ∷ [])))))))))))
