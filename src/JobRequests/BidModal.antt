-- ===== src/JobRequests/BidModal.antt =====
-- The form for a bid, `JobRequestDetailModal` of app/frontend/pages/JobRequests.jsx. `handleSubmit`
-- is two functions, up to its request and from the answer on; both take the `job` that the handler
-- had closed over.
pub mod Choices
pub mod Saving
pub mod Render
use roost_assured.Common.{
  ℕ, zero, suc, ◌+◌, ◌-◌, ◌*◌, ◌/◌, ◌%◌, ◌≤◌, ◌<◌, String, ◌≡◌, refl, sym, ap, ◌∙◌, ◌≢◌, ◌↔◌, ◌⊎◌,
  inl, inr, Bool, true, false, not, ◌&&◌, ◌||◌, Option, none, some, List, [], ◌∷◌, ◌++◌, map, arith,
  ltb, leb, nat_beq, if◌then◌else◌, ltb→lt, lt→ltb, nat_beq_iff, Bool-cases, Option-cases,
  Comparable, ◌==◌, number_key, string_key, ==_refl, ==_false, ==_comm, length, All, keep, any,
  every, find, when, length-append, length-keep, keep-append, keep-keep, contains, contains-append,
  contains-keep, first_some, without, find_id, contains-map-without, find_id-without,
  find_id-append, find_id-eq-none, All-keep, All-append,
}
use roost_assured.Common.Text.{text_key, text_or}
use roost_assured.Common.Sets.{add, delete, set_of}
use roost_assured.Common.View.{
  Node, heading, words, shown, number, miles, pill, alert, notice, field, button, submit, child,
  or_dash,
}
use roost_assured.Api.{Method, post, patch, Settled, fulfilled, rejected, errors_or, join}
use roost_assured.JobRequests.Records.{Bid, JobRequest, is_passed, has_bid}

pub record BidForm : Type 0 where
  pub amount : String
  pub message : String
  pub accepted_dates : List (List ℕ)
  pub declined_dates : List (List ℕ)

pub record Modal : Type 0 where
  pub bid_form : BidForm
  pub submitting : Bool
  pub passing : Bool
  pub errors : List String
  pub notice : Option String

abbrev text_of_option : Option String → String
text_of_option none = ""
text_of_option (some s) = text_or s ""

-- The form for a request with this bid, of which only dates still asked for are kept.
abbrev form_of_bid : List (List ℕ) → Option Bid → Bool → BidForm
form_of_bid sitting_dates none live = record {
  amount = "";
  message = "";
  accepted_dates = [];
  declined_dates = [];
}
form_of_bid sitting_dates (some bid) live = record {
  amount = if live then bid.amount else "";
  message = text_of_option bid.message;
  accepted_dates = keep (contains (set_of sitting_dates)) bid.accepted_dates;
  declined_dates = keep (contains (set_of sitting_dates)) bid.declined_dates;
}

unfoldable pub new_modal : JobRequest → Modal
new_modal job = record {
  bid_form = form_of_bid job.sitting_dates job.my_bid (has_bid job);
  submitting = false;
  passing = false;
  errors = [];
  notice = none;
}

-- `cycleDate(date)`, on the form.
unfoldable pub cycle_date : List ℕ → BidForm → BidForm
cycle_date date prev =
    let accepted = set_of prev.accepted_dates in
    let declined = set_of prev.declined_dates in
    if contains accepted date
    then record prev { accepted_dates = delete date accepted; declined_dates = add date declined }
    else if contains declined date
    then record prev { accepted_dates = accepted; declined_dates = delete date declined }
    else record prev { accepted_dates = add date accepted; declined_dates = declined }

-- `handleSubmit` up to its request, the method and the bid that it sends.
unfoldable pub submit_start : JobRequest → Modal → Modal × Method × BidForm
submit_start job m = (
  record m { submitting = true; errors = []; notice = none },
  if has_bid job || is_passed job then patch else post,
  m.bid_form,
)

-- The rest of `handleSubmit`, and the request that it passes to `onBidSaved`.
unfoldable pub submit_finish : JobRequest → Settled Bid → Modal → Modal × Option JobRequest
submit_finish job (fulfilled bid) m = (
  record m {
    bid_form = record {
      amount = bid.amount;
      message = text_of_option bid.message;
      accepted_dates = bid.accepted_dates;
      declined_dates = bid.declined_dates;
    };
    notice = some (if has_bid job then "Bid updated." else "Bid submitted.");
    submitting = false;
  },
  some (record job { my_bid = some bid }),
)
submit_finish job (rejected es) m =
    (record m { errors = errors_or es "Something went wrong."; submitting = false }, none)

-- `handlePass` before and after the page's `passJob`.
unfoldable pub handle_pass_start : Modal → Modal
handle_pass_start m = record m { passing = true; errors = [] }

unfoldable pub handle_pass_finish : Modal → Modal
handle_pass_finish m = record m { passing = false }
