-- ===== src/Home/Records.antt =====
-- The records of app/frontend/pages/Home.jsx, as the server sends them.
use roost_assured.Common.{ℕ, String, Bool, Option, List, number_key, string_key}
use roost_assured.JobRequests.Records.{BidStatus, JobStatus, JobTask}
use roost_assured.Wizards.CareRequest.{User}

-- `bid.sitter`; `none` is a field that is null.
pub record BidSitter : Type 0 where
  pub user_id : ℕ
  pub name : String
  pub city : String
  pub state : String
  pub bio : Option String
  pub years_experience : Option ℕ
  pub average_rating : Option String
  pub ratings_count : ℕ
  pub profile_photo_url : Option String

-- A bid that the owner received.
pub record OwnerBid : Type 0 where
  pub id : ℕ
  pub status : BidStatus
  pub amount : String
  pub message : Option String
  pub accepted_dates : List (List ℕ)
  pub declined_dates : List (List ℕ)
  pub stale : Bool
  pub job_status : JobStatus
  pub estimated_arrival_at : Option String
  pub job_tasks : List JobTask
  pub sitter_notes : Option String
  pub rating : Option ℕ
  pub review : Option String
  pub sitter : BidSitter

-- What the channel of a job sends: the bid without its sitter.
pub record JobData : Type 0 where
  pub id : ℕ
  pub status : BidStatus
  pub amount : String
  pub message : Option String
  pub accepted_dates : List (List ℕ)
  pub declined_dates : List (List ℕ)
  pub stale : Bool
  pub job_status : JobStatus
  pub estimated_arrival_at : Option String
  pub job_tasks : List JobTask
  pub sitter_notes : Option String
  pub rating : Option ℕ
  pub review : Option String

-- The answer of /home: `confirmed_signup`, an element of the lists of sitters, and the whole.
pub record Signup : Type 0 where
  pub city : String
  pub state : String
  pub zip_code : String
  pub referral_code : Option String

pub record NearbySitter : Type 0 where
  pub id : ℕ
  pub name : String
  pub price_per_visit : String

pub record LandingData : Type 0 where
  pub searched_city : Option String
  pub searched_state : Option String
  pub searched_zip : Option String
  pub zip_is_live : Bool
  pub sitting_window_asked : Bool
  pub confirmed_signup : Option Signup
  pub available_sitters : List NearbySitter
  pub nearby_sitters : List NearbySitter

-- The user, with the fields that the form for a care request reads.
pub record Member : Type 0 where
  pub name : String
  pub is_sitter : Bool
  pub request : User
