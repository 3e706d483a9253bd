-- ===== src/JobRequests/Board.antt =====
-- The page component `JobRequests` of app/frontend/pages/JobRequests.jsx. A handler that awaits the
-- server is two functions, up to the call and from the answer on; the second takes what the
-- handler had closed over, since other events may come between the two.
pub mod Lookup
pub mod Partition
pub mod Nearest
pub mod Render
use roost_assured.Common.{
  ℕ, zero, suc, ◌+◌, ◌-◌, ◌*◌, ◌/◌, ◌%◌, ◌≤◌, ◌<◌, String, ◌≡◌, refl, sym, ap, ◌∙◌, ◌≢◌, ◌↔◌, ◌⊎◌,
  inl, inr, Bool, true, false, not, ◌&&◌, ◌||◌, Option, none, some, List, [], ◌∷◌, ◌++◌, map, arith,
  ltb, leb, nat_beq, if◌then◌else◌, ltb→lt, lt→ltb, nat_beq_iff, Bool-cases, Option-cases,
  Comparable, ◌==◌, number_key, string_key, ==_refl, ==_false, ==_comm, length, All, keep, any,
  every, find, when, length-append, length-keep, keep-append, keep-keep, contains, contains-append,
  contains-keep, first_some, without, find_id, contains-map-without, find_id-without,
  find_id-append, find_id-eq-none, All-keep, All-append,
}
use mathlib.Core.Option
use roost_assured.Api.{Settled, fulfilled, rejected, message_or, join}
use roost_assured.JobRequests.Records.{Bid, JobRequest, JobStatus, Job, is_passed, is_completed}

-- The answer of /job_requests.
pub record Requests : Type 0 where
  pub travel_radius_miles : ℕ
  pub job_requests : List JobRequest
  pub passed_requests : List JobRequest

pub record Board : Type 0 where
  pub data_loaded : Option Requests
  pub error : Option String
  pub selected_id : Option ℕ
  pub show_passed : Bool
  pub passing_id : Option ℕ
  pub jobs : List Job

unfoldable pub new_board : Board
new_board = record {
  data_loaded = none;
  error = none;
  selected_id = none;
  show_passed = false;
  passing_id = none;
  jobs = [];
}

abbrev pub request_id : JobRequest → ℕ
request_id j = j.id

-- `applyJobUpdate`, on the two lists.
unfoldable pub apply_job_update : JobRequest → Requests → Requests
apply_job_update updated prev = record prev {
  job_requests =
      without request_id updated.id prev.job_requests
      ++ (if is_passed updated then [] else updated ∷ []);
  passed_requests =
      without request_id updated.id prev.passed_requests
      ++ (if is_passed updated then updated ∷ [] else []);
}

-- The lists of `handleBlockedOwner`.
unfoldable pub drop_owner : ℕ → Requests → Requests
drop_owner owner_id prev = record prev {
  job_requests = without request_id owner_id prev.job_requests;
  passed_requests = without request_id owner_id prev.passed_requests;
}

abbrev set_data : (Requests → Requests) → Board → Board
set_data f b = record b { data_loaded = Option.map f b.data_loaded }

-- `allJobs`, and the selected one among them.
abbrev pub all_jobs : Requests → List JobRequest
all_jobs d = d.job_requests ++ d.passed_requests

abbrev pub find_request : ℕ → Requests → Option JobRequest
find_request i d = find_id request_id i (all_jobs d)

-- `x === id`, where x may be null.
abbrev pub is_id : Option ℕ → ℕ → Bool
is_id none i = false
is_id (some j) i = j == i

-- `applyJobRecord`.
unfoldable pub apply_job_record : Job → List Job → List Job
apply_job_record updated prev = map (λ j. if nat_beq j.id updated.id then updated else j) prev

-- The two requests of the first effect, when they are answered.
unfoldable pub requests_loaded : Settled Requests → Board → Board
requests_loaded (fulfilled d) b = record b { data_loaded = some d }
requests_loaded (rejected es) b = record b { error = some (message_or es "Something went wrong.") }

unfoldable pub jobs_loaded : Settled (List Job) → Board → Board
jobs_loaded (fulfilled js) b = record b { jobs = js }
jobs_loaded (rejected es) b = b

-- `handleBlockedOwner(ownerUserId)`, with the `selectedId` that the click on the menu had closed over.
unfoldable pub handle_blocked_owner : ℕ → Option ℕ → Board → Board
handle_blocked_owner owner_id selected_id b =
    let b' = set_data (drop_owner owner_id) b in
    if is_id selected_id owner_id then record b' { selected_id = none } else b'

-- `passJob(job)` up to its request.
unfoldable pub pass_start : JobRequest → Board → Board
pass_start job b = record b { passing_id = some job.id }

-- The rest of `passJob(job)`, with the `selectedId` that it had closed over.
unfoldable pub pass_finish : JobRequest → Option ℕ → Settled Bid → Board → Board
pass_finish job selected_id (fulfilled bid) b =
    let b' = set_data (apply_job_update (record job { my_bid = some bid })) b in
    record b' {
      selected_id = if is_id selected_id job.id then none else b'.selected_id;
      passing_id = none;
    }
pass_finish job selected_id (rejected es) b = record b { passing_id = none }

-- All that can happen to the page: the answers of the server, the clicks, and the calls that its
-- children make.
pub data PageEvent : Type 0 where
  requests_answer : Settled Requests → PageEvent
  jobs_answer : Settled (List Job) → PageEvent
  open_request : ℕ → PageEvent
  close_request toggle_passed : PageEvent
  pass_click : JobRequest → PageEvent
  pass_answer : JobRequest → Option ℕ → Settled Bid → PageEvent
  bid_saved : JobRequest → PageEvent
  blocked : ℕ → Option ℕ → PageEvent
  job_changed : Job → PageEvent

unfoldable pub on_event : Board → PageEvent → Board
unfolding requests_loaded jobs_loaded handle_blocked_owner pass_start pass_finish apply_job_record
on_event b (requests_answer r) = requests_loaded r b
on_event b (jobs_answer r) = jobs_loaded r b
on_event b (open_request i) = record b { selected_id = some i }
on_event b close_request = record b { selected_id = none }
on_event b toggle_passed = record b { show_passed = not b.show_passed }
on_event b (pass_click job) = pass_start job b
on_event b (pass_answer job selected r) = pass_finish job selected r b
on_event b (bid_saved job) = set_data (apply_job_update job) b
on_event b (blocked owner_id selected) = handle_blocked_owner owner_id selected b
on_event b (job_changed job) = record b { jobs = apply_job_record job b.jobs }
