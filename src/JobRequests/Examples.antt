-- ===== src/JobRequests/Examples.antt =====
-- The theorems on app/frontend/pages/JobRequests.jsx at a page with two requests and a job.
use mathlib.Core.List.{foldl}
use roost_assured.Common.{
  ℕ, ◌≡◌, refl, ◌↔◌, ◌⊎◌, true, false, Option, none, some, List, [], ◌∷◌, arith, nat_beq,
  if◌then◌else◌, ◌==◌, number_key, string_key,
}
use roost_assured.Common.Text.{text_key, text_beq_iff}
use roost_assured.Common.Sets.{set_of}
use roost_assured.Api.{fulfilled}
use roost_assured.Calendar.Requested.{requested_cell}
use roost_assured.JobRequests.Records.{
  BidStatus, submitted, passed, Bid, JobRequest, JobStatus, in_progress, Job,
}
use roost_assured.JobRequests.Board.{
  Requests, Board, new_board, find_request, apply_job_update, drop_owner, PageEvent,
  requests_answer, pass_answer, bid_saved, blocked, on_event,
}
use roost_assured.JobRequests.Board.Lookup.{find_request-apply_job_update}
use roost_assured.JobRequests.Board.Partition.{IsPartition, IsPartitioned, events-IsPartitioned}
use roost_assured.JobRequests.Board.Nearest.{
  IsClosestFirst, apply_job_update-not-IsClosestFirst, apply_job_update-IsClosestFirst,
}
use roost_assured.JobRequests.BidModal.{BidForm, new_modal, cycle_date, submit_finish}
use roost_assured.JobRequests.BidModal.Choices.{
  choice, next_choice, IsAnswer, IsWithin, click_dates, choice-cycle_date, click_dates-IsAnswer,
}
use roost_assured.JobRequests.BidModal.Saving.{found, saved, submit_finish-saved}
use roost_assured.JobRequests.JobCard.{can_complete}
use roost_assured.JobRequests.JobCard.Laws.{IsAllDone, HasPhoto, can_complete_lem}

-- A request at this many tenths of a mile, with the dates 7 and 8, for short.
abbrev request : ℕ → ℕ → Option Bid → JobRequest
request id tenths my_bid = record {
  id = id;
  name = "Ada";
  city = "Portland";
  state = "OR";
  zip_code = "97214";
  flock_size_tier = some "Small";
  sitting_type = none;
  sitting_dates = (7 ∷ []) ∷ (8 ∷ []) ∷ [];
  distance_miles = some tenths;
  feeder_count = some 1;
  waterer_count = none;
  feed_location = none;
  water_location = none;
  coop_features = [];
  care_tasks = "Collect eggs" ∷ [];
  other_care_task = none;
  special_requests = none;
  my_bid = my_bid;
}

abbrev bid : BidStatus → Bid
bid status = record {
  id = 5;
  status = status;
  amount = "20";
  message = none;
  accepted_dates = (7 ∷ []) ∷ [];
  declined_dates = (9 ∷ []) ∷ [];
  stale = true;
}

abbrev near : JobRequest
near = request 1 12 none

abbrev far : JobRequest
far = request 2 30 none

abbrev near_bid : JobRequest
near_bid = request 1 12 (some (bid submitted))

abbrev near_passed : JobRequest
near_passed = request 1 12 (some (bid passed))

abbrev two_requests : Requests
two_requests = record {
  travel_radius_miles = 25;
  job_requests = near ∷ far ∷ [];
  passed_requests = [];
}

two_requests-IsPartition : IsPartition two_requests
two_requests-IsPartition = record {
  open_kind = (refl, (refl, tt));
  passed_kind = tt;
  open_ids = (refl, (refl, tt));
  passed_ids = tt;
  apart = λ z. ground arith;
}

-- The requests arrive, the first is passed on and then bid on, its owner blocked.
abbrev events : List PageEvent
events =
    requests_answer (fulfilled two_requests)
    ∷ pass_answer near none (fulfilled (bid passed))
    ∷ bid_saved near_bid
    ∷ blocked 1 (some 1)
    ∷ []

events-IsPartitioned_example : IsPartitioned (foldl on_event new_board events).data_loaded
events-IsPartitioned_example =
    events-IsPartitioned events (two_requests-IsPartition, (tt, (tt, (tt, tt))))

find_request-apply_job_update_example :
    find_request 2 (apply_job_update near_bid two_requests)
    ≡ (if nat_beq 2 1 then some near_bid else find_request 2 two_requests)
find_request-apply_job_update_example = find_request-apply_job_update near_bid two_requests 2

apply_job_update-not-IsClosestFirst_example :
    ¬ IsClosestFirst (apply_job_update near_bid two_requests).job_requests
apply_job_update-not-IsClosestFirst_example =
    apply_job_update-not-IsClosestFirst near far near_bid [] two_requests refl (omega arith) refl
      refl refl refl

apply_job_update-IsClosestFirst_example :
    IsClosestFirst (apply_job_update near_passed two_requests).job_requests
    × IsClosestFirst (drop_owner 1 two_requests).job_requests
apply_job_update-IsClosestFirst_example =
    apply_job_update-IsClosestFirst near_passed 1 two_requests refl ((omega arith, tt), (tt, tt))

-- A form on which date 7 is accepted.
abbrev form : BidForm
form = record { amount = "20"; message = ""; accepted_dates = (7 ∷ []) ∷ []; declined_dates = [] }

choice-cycle_date_example : choice (cycle_date (7 ∷ []) form) (7 ∷ []) ≡ (
    if ◌==◌ {A = List ℕ} (7 ∷ []) (7 ∷ [])
    then next_choice (choice form (7 ∷ []))
    else choice form (7 ∷ []))
choice-cycle_date_example =
    choice-cycle_date (7 ∷ []) form
      (record { accepted_once = (refl, tt); declined_once = tt; apart = λ z. ground arith })
      (7 ∷ [])

click_dates-IsAnswer_example :
    IsAnswer (click_dates near_bid (new_modal near_bid).bid_form ((8 ∷ []) ∷ []))
    × IsWithin near_bid.sitting_dates
        (click_dates near_bid (new_modal near_bid).bid_form ((8 ∷ []) ∷ []))
unfolding requested_cell set_of
click_dates-IsAnswer_example =
    click_dates-IsAnswer near_bid ((8 ∷ []) ∷ [])
      (
        (refl, tt),
        (refl, tt),
        λ z. ground (arith, text_beq_iff (7 ∷ []) z, text_beq_iff (9 ∷ []) z),
      )
      (refl, tt)

abbrev board : Board
board = record {
  data_loaded = some two_requests;
  error = none;
  selected_id = some 1;
  show_passed = false;
  passing_id = none;
  jobs = [];
}

submit_finish-saved_example :
    (found 1
        (saved
          (submit_finish near (fulfilled (bid submitted)) (new_modal near)).1
          board).data_loaded
      ≡ (if nat_beq 1 1 then some near_bid else find_request 1 two_requests))
    × ((submit_finish near (fulfilled (bid submitted)) (new_modal near)).0.submitting ≡ false)
submit_finish-saved_example =
    submit_finish-saved near (bid submitted) (new_modal near) board two_requests 1 refl

abbrev job : JobStatus → Job
job status = record {
  id = 4;
  owner_id = 1;
  amount = "20";
  job_status = status;
  job_tasks =
      record {
        id = 6;
        description = "Collect eggs";
        completed = true;
        photo_url = some "/eggs.png";
      }
      ∷ [];
  requested_dates = (7 ∷ []) ∷ [];
  declined_dates = [];
  sitter_notes = none;
  owner_contact = none;
  estimated_arrival_at = none;
  rating = none;
  review = none;
}

can_complete_lem_example : (can_complete (job in_progress) ≡ true) ↔ (
    ((job in_progress).job_tasks ≡ [])
    ⊎ (IsAllDone (job in_progress).job_tasks × HasPhoto (job in_progress).job_tasks))
can_complete_lem_example = can_complete_lem (job in_progress)
