-- ===== src/JobRequests/Records.antt =====
-- The records of app/frontend/pages/JobRequests.jsx, as the server sends them. A date is its key,
-- the text YYYY-MM-DD; `none` is a field that is null; a distance is in tenths of a mile.
use roost_assured.Common.{ℕ, String, Bool, true, false, Option, none, some, List}

pub data BidStatus : Type 0 where
  submitted passed accepted rejected : BidStatus

pub record Bid : Type 0 where
  pub id : ℕ
  pub status : BidStatus
  pub amount : String
  pub message : Option String
  pub accepted_dates : List (List ℕ)
  pub declined_dates : List (List ℕ)
  pub stale : Bool

-- An open request; its number is that of the owner who made it.
pub record JobRequest : Type 0 where
  pub id : ℕ
  pub name : String
  pub city : String
  pub state : String
  pub zip_code : String
  pub flock_size_tier : Option String
  pub sitting_type : Option String
  pub sitting_dates : List (List ℕ)
  pub distance_miles : Option ℕ
  pub feeder_count : Option ℕ
  pub waterer_count : Option ℕ
  pub feed_location : Option String
  pub water_location : Option String
  pub coop_features : List String
  pub care_tasks : List String
  pub other_care_task : Option String
  pub special_requests : Option String
  pub my_bid : Option Bid

pub data JobStatus : Type 0 where
  not_started on_the_way in_progress completed : JobStatus

pub record JobTask : Type 0 where
  pub id : ℕ
  pub description : String
  pub completed : Bool
  pub photo_url : Option String

pub record Contact : Type 0 where
  pub name : String
  pub phone_number : Option String
  pub address : Option String
  pub city : String
  pub state : String
  pub zip_code : String

-- An accepted bid with the job that it became.
pub record Job : Type 0 where
  pub id : ℕ
  pub owner_id : ℕ
  pub amount : String
  pub job_status : JobStatus
  pub job_tasks : List JobTask
  pub requested_dates : List (List ℕ)
  pub declined_dates : List (List ℕ)
  pub sitter_notes : Option String
  pub owner_contact : Option Contact
  pub estimated_arrival_at : Option String
  pub rating : Option ℕ
  pub review : Option String

abbrev pub is_status_passed : BidStatus → Bool
is_status_passed passed = true
is_status_passed _ = false

abbrev bid_passed : Option Bid → Bool
bid_passed none = false
bid_passed (some b) = is_status_passed b.status

-- `job.my_bid?.status === "passed"`.
abbrev pub is_passed : JobRequest → Bool
is_passed j = bid_passed j.my_bid

-- `!!job.my_bid && job.my_bid.status !== "passed"`.
abbrev live_bid : Option Bid → Bool
live_bid none = false
live_bid (some b) = elim (is_status_passed b.status) [ true ↦ false | false ↦ true ]

abbrev pub has_bid : JobRequest → Bool
has_bid j = live_bid j.my_bid

abbrev pub is_completed : JobStatus → Bool
is_completed completed = true
is_completed _ = false
