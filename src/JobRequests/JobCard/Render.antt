-- ===== src/JobRequests/JobCard/Render.antt =====
-- What `MyJobCard` of app/frontend/pages/JobRequests.jsx draws.
use roost_assured.Common.{
  ℕ, String, Bool, false, not, ◌&&◌, ◌||◌, Option, none, some, List, [], ◌∷◌, ◌++◌, map, ltb,
  nat_beq, if◌then◌else◌, number_key, string_key, length, keep, when,
}
use roost_assured.Common.Text.{is_empty}
use Prim.Native.String.{◌++◌ as text_append}
use roost_assured.Common.View.{
  Node, words, shown, number, dollars, alert, field, button, child, counted, or_dash, difference,
}
use roost_assured.JobRequests.Records.{
  JobStatus, not_started, on_the_way, in_progress, completed, Contact, Job, is_completed,
}
use roost_assured.JobRequests.JobCard.{
  JobCard, has_text, can_complete, completion_blocked_reason, is_on_the_way, is_not_started,
}

pub data CardAction : Type 0 where
  toggle_expanded open_notes save_eta_click : CardAction
  change_status : JobStatus → CardAction

-- `JOB_STATUS_LABELS`, and its keys in order.
abbrev pub label : JobStatus → String
label not_started = "Not started"
label on_the_way = "On the way"
label in_progress = "In progress"
label completed = "Completed"

abbrev pub statuses : List JobStatus
statuses = not_started ∷ on_the_way ∷ in_progress ∷ completed ∷ []

-- An option of the list of statuses: its value, its text, and whether it is disabled.
pub record StatusOption : Type 0 where
  pub value : JobStatus
  pub text : String
  pub disabled : Bool

unfoldable pub status_option : Job → JobStatus → StatusOption
status_option job s = record {
  value = s;
  text = text_append (label s) (if is_completed s then completion_blocked_reason job else "");
  disabled = is_completed s && not (can_complete job);
}

unfoldable pub status_options : Job → List StatusOption
status_options job = map (status_option job) statuses

-- `<select disabled={changingStatus}>` with its options.
draw_option : Bool → StatusOption → List (Node CardAction)
draw_option changing o = button o.text (changing || o.disabled) (change_status o.value) ∷ []

unfoldable pub completed_count : Job → ℕ
completed_count job = length (keep (λ t. t.completed) job.job_tasks)

card_header : Job → List (Node CardAction)
unfolding completed_count
card_header job =
    button "header" false toggle_expanded
    ∷ dollars job.amount
    ∷ words "/visit"
    ∷ (difference (length job.requested_dates) (length job.declined_dates)
        ++ (words "of"
            ∷ (counted (length job.requested_dates) "day confirmed" "days confirmed"
                ++ (when (ltb 0 (length job.job_tasks)) (
                      number (completed_count job)
                      ∷ words "/"
                      ∷ number (length job.job_tasks)
                      ∷ words "tasks done"
                      ∷ [])
                    ++ (when (has_text job.sitter_notes) (words "📝" ∷ [])
                        ++ (shown (label job.job_status) ∷ []))))))

contact_part : Option Contact → List (Node CardAction)
contact_part none = []
contact_part (some k) =
    words "Owner contact"
    ∷ shown k.name
    ∷ shown (or_dash k.phone_number)
    ∷ shown (or_dash k.address)
    ∷ shown k.city
    ∷ shown k.state
    ∷ shown k.zip_code
    ∷ []

error_part : Option String → List (Node CardAction)
error_part none = []
error_part (some e) = if is_empty e then [] else alert e ∷ []

options_part : Bool → List StatusOption → List (Node CardAction)
unfolding draw_option
options_part changing [] = []
options_part changing (o ∷ os) = draw_option changing o ++ options_part changing os

review_part : Option String → List (Node CardAction)
review_part none = []
review_part (some r) = if is_empty r then [] else shown r ∷ []

rating_part : Option ℕ → Option String → List (Node CardAction)
unfolding review_part
rating_part none review = []
rating_part (some n) review =
    if nat_beq n 0
    then number 0 ∷ []
    else words "Rated" ∷ number n ∷ words "/5" ∷ review_part review

card_body : Job → JobCard → List (Node CardAction)
unfolding status_options contact_part error_part options_part rating_part
card_body job c =
    error_part c.error
    ++ (contact_part job.owner_contact
        ++ (words "Job status"
            ∷ (options_part c.changing_status (status_options job)
                ++ (when (is_not_started job.job_status || is_on_the_way job.job_status) (
                      words "Estimated arrival"
                      ∷ field "eta" c.eta false
                      ∷ button (if c.saving_eta then "…" else "Save") c.saving_eta save_eta_click
                      ∷ [])
                    ++ (rating_part job.rating job.review
                        ++ (when (ltb 0 (length job.job_tasks))
                              (words "Checklist" ∷ map (λ t. child "JobTaskRow" t.id) job.job_tasks)
                            ++ (button
                                  (if has_text job.sitter_notes then "Edit notes" else "Add notes")
                                  false open_notes
                                ∷ child "MessageThread" job.id
                                ∷ child "BlockReportMenu" job.owner_id
                                ∷ [])))))))

unfoldable pub render_card : Job → JobCard → List (Node CardAction)
unfolding card_header card_body draw_option review_part error_part contact_part options_part
    rating_part
render_card job c =
    card_header job
    ++ (when c.expanded (card_body job c) ++ when c.notes_open (child "JobNotesModal" job.id ∷ []))
