-- ===== src/Home.antt =====
-- The page component `Home` of app/frontend/pages/Home.jsx: its state and its handlers. A handler
-- that awaits the server is two functions, up to the call and from the answer on. The user belongs
-- to the session and stands in the state beside the rest.
pub mod Records
pub mod Rating
pub mod BidCard
pub mod Marketing
pub mod Landing
pub mod Render
pub mod Visits
pub mod Loading
pub mod Requests
pub mod Decisions
mod Examples
use roost_assured.Common.{
  ℕ, zero, suc, ◌+◌, ◌-◌, ◌*◌, ◌/◌, ◌%◌, ◌≤◌, ◌<◌, String, ◌≡◌, refl, sym, ap, ◌∙◌, ◌≢◌, ◌↔◌, ◌⊎◌,
  inl, inr, Bool, true, false, not, ◌&&◌, ◌||◌, Option, none, some, List, [], ◌∷◌, ◌++◌, map, arith,
  ltb, leb, nat_beq, if◌then◌else◌, ltb→lt, lt→ltb, nat_beq_iff, Bool-cases, Option-cases,
  Comparable, ◌==◌, number_key, string_key, ==_refl, ==_false, ==_comm, length, All, keep, any,
  every, find, when, length-append, length-keep, keep-append, keep-keep, contains, contains-append,
  contains-keep, first_some, without, find_id, contains-map-without, find_id-without,
  find_id-append, find_id-eq-none, All-keep, All-append,
}
use roost_assured.Api.{Settled, fulfilled, rejected, message_or}
use roost_assured.JobRequests.Records.{
  BidStatus, submitted, accepted, JobStatus, JobTask, is_completed,
}
use roost_assured.Wizards.CareRequest.{User}
pub use Records.*

pub record Page : Type 0 where
  pub user : Option Member
  pub data_loaded : Option LandingData
  pub loading : Bool
  pub care_request_open : Bool
  pub bids : List OwnerBid
  pub bid_action_id : Option ℕ
  pub cancelling : Bool
  pub requests_error : Option String
  pub requests_notice : Option String
  pub show_completed : Bool

unfoldable pub new_page : Option Member → Page
new_page user = record {
  user = user;
  data_loaded = none;
  loading = true;
  care_request_open = false;
  bids = [];
  bid_action_id = none;
  cancelling = false;
  requests_error = none;
  requests_notice = none;
  show_completed = false;
}

-- `load` up to its request, and the rest, which has no `catch`: after an error nothing is set. The
-- answer may be null.
unfoldable pub load_start : Page → Page
load_start p = record p { loading = true }

unfoldable pub load_finish : Settled (Option LandingData) → Page → Page
load_finish (fulfilled result) p = record p { data_loaded = result; loading = false }
load_finish (rejected es) p = p

-- The rest of `loadBids`.
unfoldable pub load_bids_finish : Settled (List OwnerBid) → Page → Page
load_bids_finish (fulfilled bids) p = record p { bids = bids }
load_bids_finish (rejected es) p = p

abbrev pub is_submitted : OwnerBid → Bool
is_submitted b = elim b.status [ submitted ↦ true | _ ↦ false ]

abbrev pub is_accepted : OwnerBid → Bool
is_accepted b = elim b.status [ accepted ↦ true | _ ↦ false ]

-- The test of `completedBids`.
abbrev pub is_done : OwnerBid → Bool
is_done b = is_accepted b && is_completed b.job_status

unfoldable pub has_accepted_bid : List OwnerBid → Bool
has_accepted_bid bids = any is_accepted bids

unfoldable pub submitted_bids : List OwnerBid → List OwnerBid
submitted_bids bids = keep is_submitted bids

unfoldable pub completed_bids : List OwnerBid → List OwnerBid
completed_bids bids = keep is_done bids

unfoldable pub active_bids : List OwnerBid → List OwnerBid
active_bids bids = keep (λ b. not (is_done b)) bids

-- `setRequestsError(null)` and `setRequestsNotice(null)`.
abbrev clear_notes : Page → Page
clear_notes p = record p { requests_error = none; requests_notice = none }

-- `setRequestsError(err.data?.errors?.join(", ") || "Something went wrong.")`.
abbrev note_error : Option (List String) → Page → Page
note_error es p = record p { requests_error = some (message_or es "Something went wrong.") }

-- `handleCancelRequest` up to its request, and whether it makes one: the visitor may say no.
unfoldable pub cancel_start : Bool → Page → Page × Bool
cancel_start confirmed p =
    if confirmed then (clear_notes (record p { cancelling = true }), true) else (p, false)

unfoldable pub cancel_finish : Settled Member → Page → Page
cancel_finish (fulfilled user) p = record p {
  user = some user;
  bids = [];
  requests_notice = some "Request cancelled.";
  cancelling = false;
}
cancel_finish (rejected es) p = record (note_error es p) { cancelling = false }

pub data Decision : Type 0 where
  accept reject : Decision

abbrev decided : Decision → String
decided accept = "Bid accepted."
decided reject = "Bid rejected."

-- `handleBidDecision`.
unfoldable pub decide_start : ℕ → Page → Page
decide_start bid_id p = clear_notes (record p { bid_action_id = some bid_id })

unfoldable pub decide_finish : Decision → Settled (List OwnerBid) → Page → Page
decide_finish action (fulfilled bids) p = record p {
  bids = bids;
  requests_notice = some (decided action);
  bid_action_id = none;
}
decide_finish action (rejected es) p = record (note_error es p) { bid_action_id = none }

-- `handleRateBid`.
unfoldable pub rate_start : Page → Page
rate_start p = clear_notes p

unfoldable pub rate_finish : Settled (List OwnerBid) → Page → Page
rate_finish (fulfilled bids) p = record p {
  bids = bids;
  requests_notice = some "Thanks for the feedback!";
}
rate_finish (rejected es) p = note_error es p

-- `{ ...b, ...jobData }`.
abbrev pub spread : OwnerBid → JobData → OwnerBid
spread b d = record {
  id = d.id;
  status = d.status;
  amount = d.amount;
  message = d.message;
  accepted_dates = d.accepted_dates;
  declined_dates = d.declined_dates;
  stale = d.stale;
  job_status = d.job_status;
  estimated_arrival_at = d.estimated_arrival_at;
  job_tasks = d.job_tasks;
  sitter_notes = d.sitter_notes;
  rating = d.rating;
  review = d.review;
  sitter = b.sitter;
}

-- `handleJobUpdate` and `handleBlockedSitter`, on the bids.
unfoldable pub job_update : ℕ → JobData → List OwnerBid → List OwnerBid
job_update bid_id d bids = map (λ b. if nat_beq b.id bid_id then spread b d else b) bids

unfoldable pub drop_sitter : ℕ → List OwnerBid → List OwnerBid
drop_sitter sitter_user_id bids = keep (λ b. not (nat_beq b.sitter.user_id sitter_user_id)) bids

-- The dates of the request of a user, of whom there may be none: `user.sitting_dates?.length || 0`.
abbrev pub date_count : Member → ℕ
date_count m = elim m.request.sitting_dates [ none ↦ 0 | some ds ↦ length ds ]

-- `user && user.sitting_dates?.length > 0`.
abbrev pub has_request : Option Member → Bool
has_request none = false
has_request (some m) = ltb 0 (date_count m)
