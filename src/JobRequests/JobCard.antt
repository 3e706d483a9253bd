-- ===== src/JobRequests/JobCard.antt =====
-- A sitter's accepted job, `MyJobCard` of app/frontend/pages/JobRequests.jsx. A handler that awaits
-- the server is two functions, up to the request and from the answer on. The clock of the browser,
-- which reads an ISO time as the value of a datetime-local input and back, is a parameter.
pub mod Laws
pub mod Render
pub mod Parts
use roost_assured.Common.{
  ℕ, zero, suc, ◌+◌, ◌-◌, ◌*◌, ◌/◌, ◌%◌, ◌≤◌, ◌<◌, String, ◌≡◌, refl, sym, ap, ◌∙◌, ◌≢◌, ◌↔◌, ◌⊎◌,
  inl, inr, Bool, true, false, not, ◌&&◌, ◌||◌, Option, none, some, List, [], ◌∷◌, ◌++◌, map, arith,
  ltb, leb, nat_beq, if◌then◌else◌, ltb→lt, lt→ltb, nat_beq_iff, Bool-cases, Option-cases,
  Comparable, ◌==◌, number_key, string_key, ==_refl, ==_false, ==_comm, length, All, keep, any,
  every, find, when, length-append, length-keep, keep-append, keep-keep, contains, contains-append,
  contains-keep, first_some, without, find_id, contains-map-without, find_id-without,
  find_id-append, find_id-eq-none, All-keep, All-append,
}
use roost_assured.Common.Text.{is_empty, text_or}
use roost_assured.Api.{Settled, fulfilled, rejected, message_or}
use roost_assured.JobRequests.Records.{
  JobStatus, not_started, on_the_way, in_progress, completed, JobTask, Job, is_completed,
}

-- `new Date(iso)` formatted by `toLocalInputValue`, and `new Date(value).toISOString()`.
pub record Clock : Type 0 where
  pub local_value : String → String
  pub iso : String → String

pub record JobCard : Type 0 where
  pub expanded : Bool
  pub changing_status : Bool
  pub notes_open : Bool
  pub error : Option String
  pub eta : String
  pub saving_eta : Bool

-- `toLocalInputValue`, of a time that may be missing.
unfoldable pub to_local_input_value : Clock → Option String → String
to_local_input_value clock none = ""
to_local_input_value clock (some s) = if is_empty s then "" else clock.local_value s

unfoldable pub new_card : Clock → Job → Bool → JobCard
new_card clock job default_expanded = record {
  expanded = default_expanded;
  changing_status = false;
  notes_open = false;
  error = none;
  eta = to_local_input_value clock job.estimated_arrival_at;
  saving_eta = false;
}

-- Whether a text that may be missing counts as true.
abbrev pub has_text : Option String → Bool
has_text none = false
has_text (some s) = not (is_empty s)

unfoldable pub all_tasks_done : Job → Bool
all_tasks_done job = nat_beq (length job.job_tasks) 0 || every (λ t. t.completed) job.job_tasks

unfoldable pub has_photo : Job → Bool
has_photo job = nat_beq (length job.job_tasks) 0 || any (λ t. has_text t.photo_url) job.job_tasks

unfoldable pub can_complete : Job → Bool
unfolding all_tasks_done has_photo
can_complete job = all_tasks_done job && has_photo job

abbrev pub blocked_reason : Bool → Bool → String
blocked_reason all_tasks_done has_photo =
    if not all_tasks_done
    then " (finish checklist first)"
    else if not has_photo
    then " (add a photo first)"
    else ""

unfoldable pub completion_blocked_reason : Job → String
unfolding all_tasks_done has_photo
completion_blocked_reason job = blocked_reason (all_tasks_done job) (has_photo job)

-- What the server is asked for: the new status with the time of arrival, when it is sent; or the
-- time alone, where `none` is null.
pub record StatusPayload : Type 0 where
  pub job_status : JobStatus
  pub estimated_arrival_at : Option String

abbrev pub is_on_the_way : JobStatus → Bool
is_on_the_way on_the_way = true
is_on_the_way _ = false

abbrev pub is_not_started : JobStatus → Bool
is_not_started not_started = true
is_not_started _ = false

-- `changeStatus` up to its request.
unfoldable pub change_status_start : Clock → JobStatus → JobCard → JobCard × StatusPayload
change_status_start clock status c = (
  record c { changing_status = true; error = none },
  record {
    job_status = status;
    estimated_arrival_at =
        if is_on_the_way status && not (is_empty c.eta) then some (clock.iso c.eta) else none;
  },
)

-- The message that is shown after an answer, and the job that goes to `onUpdate`.
abbrev pub error_after : Settled Job → Option String → Option String
error_after (fulfilled job) e = e
error_after (rejected es) e = some (message_or es "Something went wrong.")

abbrev pub update_of : Settled Job → Option Job
update_of (fulfilled job) = some job
update_of (rejected es) = none

-- The rest of `changeStatus`, and the job that it passes to `onUpdate`.
unfoldable pub change_status_finish : Settled Job → JobCard → JobCard × Option Job
change_status_finish r c =
    (record c { error = error_after r c.error; changing_status = false }, update_of r)

-- `saveEta` up to its request, and the time that it sends.
unfoldable pub save_eta_start : Clock → JobCard → JobCard × Option String
save_eta_start clock c = (
  record c { saving_eta = true; error = none },
  if is_empty c.eta then none else some (clock.iso c.eta),
)

unfoldable pub save_eta_finish : Settled Job → JobCard → JobCard × Option Job
save_eta_finish r c = (record c { error = error_after r c.error; saving_eta = false }, update_of r)
