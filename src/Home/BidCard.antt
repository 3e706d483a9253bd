-- ===== src/Home/BidCard.antt =====
-- What `BidCard` of app/frontend/pages/Home.jsx draws of a bid. How the browser writes a time of day
-- is a parameter.
pub mod Controls
use text.Mathlib.Text.{find?}
use Prim.Native.String.{slice, char_at, ◌++◌ as text_append}
use Prim.Native.Char.{len_utf8}
use mathlib.Core.List.{flat_map}
use roost_assured.Common.{
  ℕ, zero, suc, ◌+◌, ◌-◌, ◌*◌, ◌/◌, ◌%◌, ◌≤◌, ◌<◌, String, ◌≡◌, refl, sym, ap, ◌∙◌, ◌≢◌, ◌↔◌, ◌⊎◌,
  inl, inr, Bool, true, false, not, ◌&&◌, ◌||◌, Option, none, some, List, [], ◌∷◌, ◌++◌, map, arith,
  ltb, leb, nat_beq, if◌then◌else◌, ltb→lt, lt→ltb, nat_beq_iff, Bool-cases, Option-cases,
  Comparable, ◌==◌, number_key, string_key, ==_refl, ==_false, ==_comm, length, All, keep, any,
  every, find, when, length-append, length-keep, keep-append, keep-keep, contains, contains-append,
  contains-keep, first_some, without, find_id, contains-map-without, find_id-without,
  find_id-append, find_id-eq-none, All-keep, All-append,
}
use roost_assured.Common.Text.{is_empty}
use roost_assured.Common.View.{
  Node, words, shown, number, dollars, link, button, child, counted, difference,
}
use roost_assured.JobRequests.Records.{
  BidStatus, submitted, accepted, rejected, passed, JobStatus, not_started, on_the_way, in_progress,
  completed, JobTask, is_completed,
}
use roost_assured.JobRequests.JobCard.{has_text}
use roost_assured.Home.{BidSitter, OwnerBid, Member, Decision, accept, reject, date_count, is_done}

-- What the page's own controls do.
pub data HomeAction : Type 0 where
  new_request edit_request search_again toggle_completed cancel_request : HomeAction
  decide : ℕ → Decision → HomeAction

-- `JOB_STATUS_LABELS`.
abbrev pub label : JobStatus → String
label not_started = "Not started"
label on_the_way = "On the way"
label in_progress = "In progress"
label completed = "Completed"

-- `name.split(" ")[0]` and `name.charAt(0)`.
unfoldable pub first_name : String → String
first_name name = elim (find? name " ") [ none ↦ name | some i ↦ slice name 0 i ]

unfoldable pub first_char : String → String
first_char name = if is_empty name then "" else slice name 0 (len_utf8 (char_at name 0))

-- `bidActionId === bid.id`.
abbrev pub is_slot : Option ℕ → ℕ → Bool
is_slot none i = false
is_slot (some j) i = nat_beq j i

-- `{text && <p>{text}</p>}`.
abbrev pub text_part : Option String → List (Node HomeAction)
text_part none = []
text_part (some t) = if is_empty t then [] else shown t ∷ []

abbrev photo : BidSitter → Option String → Node HomeAction
photo s none = shown (first_char s.name)
photo s (some url) = if is_empty url then shown (first_char s.name) else link url

abbrev years : Option ℕ → Node HomeAction
years none = words "?"
years (some n) = number n

abbrev ratings : BidSitter → Option String → List (Node HomeAction)
ratings s none = words "No ratings yet" ∷ []
ratings s (some average) = words "★" ∷ shown average ∷ counted s.ratings_count "rating" "ratings"

sitter_part : BidSitter → List (Node HomeAction)
unfolding first_char
sitter_part s =
    photo s s.profile_photo_url
    ∷ shown s.name
    ∷ shown s.city
    ∷ words ","
    ∷ shown s.state
    ∷ words "·"
    ∷ years s.years_experience
    ∷ words "yrs experience"
    ∷ ratings s s.average_rating

days_part : Member → OwnerBid → List (Node HomeAction)
days_part user b = elim b.status [
  | submitted ↦
      counted (length b.accepted_dates) "day" "days"
      ++ (words "accepted,"
          ∷ number (length b.declined_dates)
          ∷ words "declined by this sitter."
          ∷ [])
  | _ ↦
      difference (date_count user) (length b.declined_dates)
      ++ (words "of"
          ∷ (counted (date_count user) "day" "days"
              ++ (words "confirmed"
                  ∷ (when (ltb 0 (length b.declined_dates)) (
                        words ","
                        ∷ number (length b.declined_dates)
                        ∷ words "declined by this sitter"
                        ∷ [])
                      ++ (words "." ∷ [])))))
]

submitted_part : Option ℕ → OwnerBid → List (Node HomeAction)
unfolding first_name
submitted_part slot b =
    when b.stale (
      words "You edited this request —"
      ∷ shown (first_name b.sitter.name)
      ∷ words "needs to review the changes and resubmit before you can accept."
      ∷ [])
    ++ (button (if is_slot slot b.id then "…" else "Accept") (is_slot slot b.id || b.stale)
          (decide b.id accept)
        ∷ button (if is_slot slot b.id then "…" else "Reject") (is_slot slot b.id || b.stale)
            (decide b.id reject)
        ∷ button "Edit request" false edit_request
        ∷ child "MessageThread" b.id
        ∷ [])

task_part : JobTask → List (Node HomeAction)
task_part t =
    words (if t.completed then "✅" else "⬜")
    ∷ shown t.description
    ∷ (elim t.photo_url [ none ↦ [] | some url ↦ if is_empty url then [] else link url ∷ [] ])

abbrev review_words : Option String → List (Node HomeAction)
review_words none = []
review_words (some t) = if is_empty t then [] else words "— \"" ∷ shown t ∷ words "\"" ∷ []

abbrev unrated_part : OwnerBid → List (Node HomeAction)
unrated_part b =
    if is_completed b.job_status
    then child "RateSitterForm" b.id ∷ []
    else words "You'll be able to rate this sitter once the job is marked completed." ∷ []

abbrev rating_part : OwnerBid → Option ℕ → List (Node HomeAction)
rating_part b none = unrated_part b
rating_part b (some n) =
    if nat_beq n 0
    then unrated_part b
    else words "You rated this sitter" ∷ number n ∷ words "/5" ∷ review_words b.review

module _ (to_time : String → String) where
  -- `formatEta`.
  unfoldable pub format_eta : Option String → Option String
  format_eta none = none
  format_eta (some iso) = if is_empty iso then none else some (to_time iso)

  eta_part : Option String → List (Node HomeAction)
  unfolding format_eta
  eta_part at = elim (format_eta at) [
    | none ↦ words "is on the way." ∷ []
    | some t ↦
        if is_empty t
        then words "is on the way." ∷ []
        else words "is on the way — ETA" ∷ shown t ∷ words "." ∷ []
  ]

  status_part : OwnerBid → JobStatus → List (Node HomeAction)
  unfolding eta_part first_name
  status_part b on_the_way =
      words "🚗" ∷ shown (first_name b.sitter.name) ∷ eta_part b.estimated_arrival_at
  status_part b not_started =
      words "Waiting for" ∷ shown (first_name b.sitter.name) ∷ words "to head over." ∷ []
  status_part b s = words "Job status:" ∷ words (label s) ∷ []

  notes_part : OwnerBid → Option String → List (Node HomeAction)
  unfolding first_name
  notes_part b none = []
  notes_part b (some t) =
      if is_empty t
      then []
      else words "Notes from" ∷ shown (first_name b.sitter.name) ∷ shown t ∷ []

  accepted_part : OwnerBid → List (Node HomeAction)
  unfolding status_part task_part notes_part
  accepted_part b =
      child "JobStatusSync" b.id
      ∷ words (if is_completed b.job_status then "Completed" else "Accepted")
      ∷ (status_part b b.job_status
          ++ (when (ltb 0 (length b.job_tasks)) (words "Checklist" ∷ flat_map task_part b.job_tasks)
              ++ (notes_part b b.sitter_notes
                  ++ (child "MessageThread" b.id ∷ rating_part b b.rating))))

  -- The part of the card that depends on the status of the bid.
  outcome_part : Option ℕ → OwnerBid → List (Node HomeAction)
  unfolding submitted_part accepted_part
  outcome_part slot b = elim b.status [
    | submitted ↦ submitted_part slot b
    | accepted ↦ accepted_part b
    | rejected ↦ words "Rejected" ∷ []
    | passed ↦ []
  ]

  unfoldable pub render_bid_card : Member → Option ℕ → OwnerBid → List (Node HomeAction)
  unfolding sitter_part days_part outcome_part
  render_bid_card user slot b =
      sitter_part b.sitter
      ++ (dollars b.amount
          ∷ words "/visit"
          ∷ child "BlockReportMenu" b.sitter.user_id
          ∷ (text_part b.sitter.bio
              ++ (text_part b.message ++ (days_part user b ++ outcome_part slot b))))
