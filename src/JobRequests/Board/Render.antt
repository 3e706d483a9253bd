-- ===== src/JobRequests/Board/Render.antt =====
-- What the page of app/frontend/pages/JobRequests.jsx draws, its own part and its rows.
use mathlib.Core.List.{flat_map}
use roost_assured.Common.{
  ℕ, String, Bool, true, false, not, Option, none, some, List, [], ◌∷◌, ◌++◌, map, nat_beq,
  if◌then◌else◌, number_key, string_key, length, keep, when,
}
use roost_assured.Common.Text.{is_empty}
use roost_assured.Common.View.{
  Node, heading, words, shown, number, dollars, miles, date_label, alert, button, child, counted,
  or_dash,
}
use roost_assured.JobRequests.Records.{Bid, JobRequest, Job, is_completed}
use roost_assured.JobRequests.Board.{
  Requests, Board, find_request, is_id, PageEvent, open_request, toggle_passed, pass_click,
}

-- `distance_miles != null ? `${distance_miles} mi` : "—"`.
abbrev distance : Option ℕ → List (Node PageEvent)
distance none = words "—" ∷ []
distance (some n) = miles n ∷ words "mi" ∷ []

abbrev starts : List (List ℕ) → List (Node PageEvent)
starts [] = []
starts (d ∷ ds) = words "starts" ∷ date_label d ∷ []

abbrev bid_cell : Option Bid → List (Node PageEvent)
bid_cell none = words "Not bid" ∷ []
bid_cell (some bid) = dollars bid.amount ∷ when bid.stale (words "Request updated" ∷ [])

-- `JobListRow`: a click on the row opens it.
unfoldable pub render_row : Bool → JobRequest → List (Node PageEvent)
render_row passing job =
    button "row" false (open_request job.id)
    ∷ shown job.name
    ∷ shown job.city
    ∷ shown job.state
    ∷ shown (or_dash job.flock_size_tier)
    ∷ shown (or_dash job.sitting_type)
    ∷ (counted (length job.sitting_dates) "day" "days"
        ++ (starts job.sitting_dates
            ++ (distance job.distance_miles
                ++ (bid_cell job.my_bid
                    ++ (button (if passing then "…" else "Pass") passing (pass_click job)
                        ∷ child "BlockReportMenu" job.id
                        ∷ [])))))

-- A row of the list of passed requests.
unfoldable pub render_passed_row : JobRequest → List (Node PageEvent)
render_passed_row job =
    shown job.name
    ∷ shown job.city
    ∷ shown job.state
    ∷ shown (or_dash job.flock_size_tier)
    ∷ shown (or_dash job.sitting_type)
    ∷ (counted (length job.sitting_dates) "day" "days"
        ++ (distance job.distance_miles
            ++ (words "Passed"
                ∷ button "Reconsider" false (open_request job.id)
                ∷ child "BlockReportMenu" job.id
                ∷ [])))

abbrev table_header : String → List (Node PageEvent)
table_header last =
    words "Owner"
    ∷ words "Flock"
    ∷ words "Sitting type"
    ∷ words "Dates"
    ∷ words "Distance"
    ∷ words last
    ∷ []

abbrev cards : List Job → List (Node PageEvent)
cards jobs = map (λ j. child "MyJobCard" j.id) jobs

abbrev is_nonempty {ℓ} : {A : Type ℓ} → List A → Bool
is_nonempty [] = false
is_nonempty (x ∷ xs) = true

unfoldable pub active_jobs : List Job → List Job
active_jobs jobs = keep (λ j. not (is_completed j.job_status)) jobs

unfoldable pub completed_jobs : List Job → List Job
completed_jobs jobs = keep (λ j. is_completed j.job_status) jobs

abbrev detail : Option JobRequest → List (Node PageEvent)
detail none = []
detail (some job) = child "JobRequestDetailModal" job.id ∷ []

abbrev selected_job : Option ℕ → Requests → Option JobRequest
selected_job none d = none
selected_job (some i) d = find_request i d

render_loaded : Board → Requests → List (Node PageEvent)
render_loaded b d =
    when (is_nonempty (active_jobs b.jobs)) (heading "Accepted jobs" ∷ cards (active_jobs b.jobs))
    ++ (heading "Requests & pending bids"
        ∷ number (length d.job_requests)
        ∷ words (
            if nat_beq (length d.job_requests) 1 then "open care request" else "open care requests")
        ∷ words "within"
        ∷ number d.travel_radius_miles
        ∷ words "miles of you, closest first."
        ∷ ((if is_nonempty d.job_requests
              then table_header "Your bid"
                ++ flat_map (λ j. render_row (is_id b.passing_id j.id) j) d.job_requests
              else words "No open requests in your area right now — check back soon." ∷ [])
            ++ (when (is_nonempty d.passed_requests) (
                  button (if b.show_passed then "Hide" else "Show") false toggle_passed
                  ∷ number (length d.passed_requests)
                  ∷ when b.show_passed
                      (table_header "Status" ++ flat_map render_passed_row d.passed_requests))
                ++ (when (is_nonempty (completed_jobs b.jobs))
                      (heading "Completed jobs" ∷ cards (completed_jobs b.jobs))
                    ++ detail (selected_job b.selected_id d)))))

render_data : Board → Option Requests → List (Node PageEvent)
render_data b none = words "Loading…" ∷ []
render_data b (some d) = render_loaded b d

render_error : Board → Option String → List (Node PageEvent)
render_error b none = render_data b b.data_loaded
render_error b (some e) = if is_empty e then render_data b b.data_loaded else alert e ∷ []

-- The page, for a visitor who is signed in or not.
unfoldable pub render_board : Bool → Board → List (Node PageEvent)
unfolding render_error render_data render_loaded render_row render_passed_row active_jobs
    completed_jobs
render_board signed_in b = if signed_in then render_error b b.error else []
