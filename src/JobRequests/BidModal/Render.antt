-- ===== src/JobRequests/BidModal/Render.antt =====
-- What `JobRequestDetailModal` of app/frontend/pages/JobRequests.jsx draws. The form as a whole is
-- sent by its `submit` control.
use roost_assured.Common.{
  ℕ, String, Bool, true, false, not, ◌||◌, Option, none, some, List, [], ◌∷◌, ◌++◌, map, ltb,
  if◌then◌else◌, number_key, string_key, length, when,
}
use roost_assured.Common.Text.{is_empty}
use roost_assured.Common.View.{
  Node, heading, words, shown, number, miles, pill, alert, notice, field, button, submit, child,
  or_dash,
}
use roost_assured.Api.{join}
use roost_assured.JobRequests.Records.{Bid, JobRequest, is_passed, has_bid}
use roost_assured.JobRequests.BidModal.{Modal}

-- What a click calls: `onClose` or `handlePass`.
pub data ModalAction : Type 0 where
  close_modal pass_request : ModalAction

abbrev place : String → String → String → List (Node ModalAction)
place city state zip_code = shown city ∷ shown state ∷ shown zip_code ∷ []

abbrev miles_away : Option ℕ → List (Node ModalAction)
miles_away none = []
miles_away (some n) = miles n ∷ words "mi away" ∷ []

abbrev bid_number : Option Bid → ℕ
bid_number none = 0
bid_number (some bid) = bid.id

abbrev is_stale : Option Bid → Bool
is_stale none = false
is_stale (some bid) = bid.stale

abbrev number_or_dash : Option ℕ → Node ModalAction
number_or_dash none = words "—"
number_or_dash (some n) = number n

abbrev pills : List String → List (Node ModalAction)
pills ts = map (λ t. pill t) ts

-- `{text && ...}`.
abbrev with_text : Option String → (String → List (Node ModalAction)) → List (Node ModalAction)
with_text none f = []
with_text (some s) f = if is_empty s then [] else f s

modal_header : JobRequest → List (Node ModalAction)
modal_header job =
    heading job.name
    ∷ (place job.city job.state job.zip_code
        ++ (miles_away job.distance_miles
            ++ (child "BlockReportMenu" job.id
                ∷ button "Close" false close_modal
                ∷ (when (is_passed job) (
                      words
                        "You passed on this request. Submitting a bid below will bring it back into your active list."
                      ∷ [])
                    ++ when (is_stale job.my_bid) (
                        shown job.name
                        ∷ words
                            "updated this request since you last bid — review the details below and resubmit your bid."
                        ∷ [])))))

modal_details : JobRequest → List (Node ModalAction)
modal_details job =
    words "Location"
    ∷ (place job.city job.state job.zip_code
        ++ (words "Exact address shared once your bid is accepted"
            ∷ words "Flock size"
            ∷ shown (or_dash job.flock_size_tier)
            ∷ words "Sitting type"
            ∷ shown (or_dash job.sitting_type)
            ∷ words "Feeders / waterers"
            ∷ number_or_dash job.feeder_count
            ∷ number_or_dash job.waterer_count
            ∷ words "Feed location"
            ∷ shown (or_dash job.feed_location)
            ∷ words "Water location"
            ∷ shown (or_dash job.water_location)
            ∷ (when (ltb 0 (length job.coop_features))
                  (words "Coop setup" ∷ pills job.coop_features)
                ++ (words "Care tasks"
                    ∷ (pills job.care_tasks
                        ++ (with_text job.other_care_task (λ t. pill t ∷ [])
                            ++ (with_text job.special_requests
                                  (λ t. words "Special requests" ∷ shown t ∷ [])
                                ++ (words "Dates & location"
                                    ∷ child "RequestedDatesCalendar" job.id
                                    ∷ child "RequestLocationMap" job.id
                                    ∷ []))))))))

abbrev notice_of : Option String → List (Node ModalAction)
notice_of none = []
notice_of (some s) = if is_empty s then [] else notice s ∷ []

modal_form : JobRequest → Modal → List (Node ModalAction)
modal_form job m =
    heading (if has_bid job then "Your bid" else "Submit a bid")
    ∷ (notice_of m.notice
        ++ (when (ltb 0 (length m.errors)) (alert (join m.errors) ∷ [])
            ++ (field "amount" m.bid_form.amount true
                ∷ field "message" m.bid_form.message false
                ∷ words
                    "Click days on the calendar above to accept or decline them — pending days count as undecided."
                ∷ (when (not (is_passed job)) (
                      button (if m.passing then "…" else "Pass on this request")
                        (m.passing || m.submitting) pass_request
                      ∷ [])
                    ++ (submit
                          (if m.submitting
                            then "Saving…"
                            else if has_bid job
                            then "Update bid"
                            else "Submit bid")
                          m.submitting
                        ∷ [])))))

unfoldable pub render_modal : JobRequest → Modal → List (Node ModalAction)
unfolding modal_header modal_details modal_form
render_modal job m = modal_header job ++ (modal_details job ++ modal_form job m)
