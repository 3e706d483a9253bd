-- ===== src/JobRequests/BidModal/Saving.antt =====
-- A bid sent with the form of app/frontend/pages/JobRequests.jsx, and the page behind it.
use roost_assured.Common.{
  ℕ, String, ◌≡◌, refl, false, Option, none, some, List, arith, if◌then◌else◌, ◌==◌, number_key,
  string_key,
}
use roost_assured.Api.{fulfilled, rejected, errors_or}
use roost_assured.JobRequests.Records.{Bid, JobRequest}
use roost_assured.JobRequests.Board.{Requests, Board, find_request, on_event, bid_saved}
use roost_assured.JobRequests.Board.Lookup.{find_request-apply_job_update}
use roost_assured.JobRequests.BidModal.{Modal, submit_finish}

-- The event for the page that follows a submission, if any.
abbrev pub saved : Option JobRequest → Board → Board
saved none b = b
saved (some job) b = on_event b (bid_saved job)

-- What the page can find of its requests.
abbrev pub found : ℕ → Option Requests → Option JobRequest
found z none = none
found z (some d) = find_request z d

-- A bid that the server has taken is on the page, if it was loaded: the request of the form carries it, and no other
-- request has changed. The form is then no longer locked.
pub submit_finish-saved :
    (job : JobRequest) (bid : Bid) (m : Modal) (b : Board) (d : Requests) (z : ℕ)
    → b.data_loaded ≡ some d
    → let (m', out) = submit_finish job (fulfilled bid) m in
      (found z (saved out b).data_loaded
        ≡ (if z == job.id then some (record job { my_bid = some bid }) else find_request z d))
      × (m'.submitting ≡ false)
unfolding submit_finish on_event
submit_finish-saved job bid m b d z e =
    (rw e (find_request-apply_job_update (record job { my_bid = some bid }) d z), refl)

-- A bid that the server refuses leaves the page and what was typed as they were, shows the errors,
-- and unlocks the form.
pub submit_finish-refused :
    (job : JobRequest) (es : List String) (m : Modal) (b : Board)
    → let (m', out) = submit_finish job (rejected (some es)) m in
      (saved out b ≡ b) × (m'.bid_form ≡ m.bid_form) × (m'.errors ≡ es) × (m'.submitting ≡ false)
unfolding submit_finish errors_or
submit_finish-refused job es m b = ground arith
