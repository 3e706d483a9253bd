-- ===== src/Home/BidCard/Controls.antt =====
-- The controls on the card of a bid of app/frontend/pages/Home.jsx.
use mathlib.Core.List.{flat_map}
use roost_assured.Common.{
  ℕ, String, ◌≡◌, refl, ◌∙◌, Bool, false, not, ◌&&◌, ◌||◌, Option, List, arith, number_key,
  string_key,
}
use roost_assured.Common.Lists.{any-append, any-when, any-flat_map, any-none}
use roost_assured.Common.View.{enables, offers}
use roost_assured.JobRequests.Records.{
  BidStatus, JobTask, JobStatus, not_started, on_the_way, in_progress, completed, submitted,
  accepted, rejected, passed,
}
use roost_assured.Home.{OwnerBid, BidSitter, Member, accept, reject, is_submitted}
use roost_assured.Home.BidCard.{
  HomeAction, edit_request, decide, is_slot, text_part, render_bid_card, sitter_part, days_part,
  submitted_part, accepted_part, task_part, status_part, notes_part, outcome_part, rating_part,
  eta_part, format_eta,
}

-- What the card offers: a decision, if the bid was made on the request as it is and no decision on it
-- is marked as under way; and an edit of the request.
abbrev pub card_offers : (HomeAction → Bool) → Option ℕ → OwnerBid → Bool
card_offers test slot b =
    is_submitted b
    && (not (is_slot slot b.id || b.stale)
          && (test (decide b.id accept) || test (decide b.id reject))
        || test edit_request)

module _ (test : HomeAction → Bool) where
  offers-sitter_part : (s : BidSitter) → offers test (sitter_part s) ≡ false
  unfolding sitter_part
  offers-sitter_part s = ground arith

  offers-text_part : (t : Option String) → offers test (text_part t) ≡ false
  offers-text_part t = ground arith

  offers-days_part : (user : Member) (b : OwnerBid) → offers test (days_part user b) ≡ false
  unfolding days_part
  offers-days_part user b = ground arith

  offers-submitted_part :
      (slot : Option ℕ) (b : OwnerBid)
      → offers test (submitted_part slot b)
        ≡ not (is_slot slot b.id || b.stale)
            && (test (decide b.id accept) || test (decide b.id reject))
          || test edit_request
  unfolding submitted_part
  offers-submitted_part slot b = ground arith

  offers-task_part : (t : JobTask) → offers test (task_part t) ≡ false
  unfolding task_part
  offers-task_part t = ground arith

  offers-rating_part :
      (b : OwnerBid) (rating : Option ℕ) → offers test (rating_part b rating) ≡ false
  offers-rating_part b rating = ground arith

  module _ (to_time : String → String) where
    offers-eta_part : (at : Option String) → offers test (eta_part to_time at) ≡ false
    unfolding eta_part format_eta
    offers-eta_part at = ground arith

    offers-status_part :
        (b : OwnerBid) (s : JobStatus) → offers test (status_part to_time b s) ≡ false
    unfolding status_part
    offers-status_part b not_started = refl
    offers-status_part b on_the_way = offers-eta_part b.estimated_arrival_at
    offers-status_part b in_progress = refl
    offers-status_part b completed = refl

    offers-notes_part :
        (b : OwnerBid) (t : Option String) → offers test (notes_part to_time b t) ≡ false
    unfolding notes_part
    offers-notes_part b t = ground arith

    offers-tasks : (ts : List JobTask) → offers test (flat_map task_part ts) ≡ false
    offers-tasks ts = any-flat_map (enables test) task_part ts ∙ any-none _ offers-task_part ts

    offers-accepted_part : (b : OwnerBid) → offers test (accepted_part to_time b) ≡ false
    unfolding accepted_part
    offers-accepted_part b =
        simp
          (
            any-append (enables test),
            any-when (enables test),
            offers-status_part b b.job_status,
            offers-tasks b.job_tasks,
            offers-notes_part b b.sitter_notes,
            offers-rating_part b b.rating,
          )
          (ground arith)

    offers-outcome_at :
        (slot : Option ℕ) (b : OwnerBid) (status : BidStatus)
        → b.status ≡ status
        → offers test (outcome_part to_time slot b) ≡ card_offers test slot b
    unfolding outcome_part
    offers-outcome_at slot b submitted e = rw e (offers-submitted_part slot b)
    offers-outcome_at slot b accepted e = rw e (offers-accepted_part b)
    offers-outcome_at slot b rejected e = rw e refl
    offers-outcome_at slot b passed e = rw e refl

    pub offers-render_bid_card :
        (user : Member) (slot : Option ℕ) (b : OwnerBid)
        → offers test (render_bid_card to_time user slot b) ≡ card_offers test slot b
    unfolding render_bid_card
    offers-render_bid_card user slot b =
        simp
          (
            any-append (enables test),
            offers-sitter_part b.sitter,
            offers-text_part b.sitter.bio,
            offers-text_part b.message,
            offers-days_part user b,
            offers-outcome_at slot b b.status refl,
          )
          (ground arith)
