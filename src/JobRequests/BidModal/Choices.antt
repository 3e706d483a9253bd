-- ===== src/JobRequests/BidModal/Choices.antt =====
-- The sitter's answer to each date asked for, in the form of app/frontend/pages/JobRequests.jsx.
use mathlib.Core.List.{foldl}
use roost_assured.Common.{
  ℕ, ◌≡◌, refl, inl, inr, true, false, not, ◌&&◌, ◌||◌, Option, none, some, List, [], ◌∷◌, arith,
  if◌then◌else◌, Bool-cases, ◌==◌, number_key, string_key, contains, contains-keep,
}
use roost_assured.Common.Text.{text_beq_iff, text_key}
use roost_assured.Common.Sets.{
  set_of, Distinct, contains-add, contains-delete, contains-set_of, Distinct-add, Distinct-delete,
  Distinct-set_of, Distinct-keep,
}
use roost_assured.Calendar.Requested.{Choice, undecided, accepted, declined, requested_cell}
use roost_assured.JobRequests.Records.{Bid, JobRequest}
use roost_assured.JobRequests.BidModal.{BidForm, new_modal, cycle_date}

-- The answer that a form gives to a date.
abbrev pub choice : BidForm → List ℕ → Choice
choice f date =
    if contains f.accepted_dates date
    then accepted
    else if contains f.declined_dates date
    then declined
    else undecided

abbrev pub next_choice : Choice → Choice
next_choice undecided = accepted
next_choice accepted = declined
next_choice declined = undecided

-- No date is both accepted and declined, and each stands once.
pub record IsAnswer (f : BidForm) : Type 0 where
  pub accepted_once : Distinct f.accepted_dates
  pub declined_once : Distinct f.declined_dates
  pub apart : (z : List ℕ) → contains f.accepted_dates z && contains f.declined_dates z ≡ false

-- Only dates asked for are answered.
abbrev pub IsWithin : List (List ℕ) → BidForm → Type 0
IsWithin dates f =
    (z : List ℕ)
    → contains f.accepted_dates z || contains f.declined_dates z ≡ true
    → contains dates z ≡ true

module _ (date : List ℕ) (f : BidForm) where
  contains-cycle_accepted :
      (z : List ℕ)
      → contains (cycle_date date f).accepted_dates z ≡ (
          if z == date
          then not (contains f.accepted_dates date) && not (contains f.declined_dates date)
          else contains f.accepted_dates z)
  unfolding cycle_date
  contains-cycle_accepted z = ground (
    arith,
    contains-add date (set_of f.accepted_dates) z,
    contains-delete date (set_of f.accepted_dates) z,
    contains-set_of f.accepted_dates z,
    contains-set_of f.accepted_dates date,
    contains-set_of f.declined_dates date,
    text_beq_iff z date,
    text_beq_iff date z,
  )

  contains-cycle_declined :
      (z : List ℕ)
      → contains (cycle_date date f).declined_dates z
        ≡ (if z == date then contains f.accepted_dates date else contains f.declined_dates z)
  unfolding cycle_date
  contains-cycle_declined z = ground (
    arith,
    contains-add date (set_of f.declined_dates) z,
    contains-delete date (set_of f.declined_dates) z,
    contains-set_of f.declined_dates z,
    contains-set_of f.accepted_dates date,
    contains-set_of f.declined_dates date,
    text_beq_iff z date,
    text_beq_iff date z,
  )

  -- A click on a date moves its answer one step on in the cycle undecided, accepted, declined, and
  -- leaves the answer to every other date, if no date is both accepted and declined.
  pub choice-cycle_date :
      IsAnswer f
      → (z : List ℕ)
      → choice (cycle_date date f) z
        ≡ (if z == date then next_choice (choice f date) else choice f z)
  choice-cycle_date v z =
      ground (arith, contains-cycle_accepted z, contains-cycle_declined z, v.apart date)

  cycle_date_once :
      Distinct (cycle_date date f).accepted_dates × Distinct (cycle_date date f).declined_dates
  unfolding cycle_date
  cycle_date_once =
      let accepted = set_of f.accepted_dates in
      let declined = set_of f.declined_dates in
      let one = Distinct-set_of f.accepted_dates in
      let two = Distinct-set_of f.declined_dates in
      elim (Bool-cases (contains accepted date)) [
        | inl p ↦ rw p (Distinct-delete date accepted one, Distinct-add date declined two)
        | inr p ↦ rw p (elim (Bool-cases (contains declined date)) [
          | inl q ↦ rw q (one, Distinct-delete date declined two)
          | inr q ↦ rw q (Distinct-add date accepted one, two)
        ])
      ]

  cycle_date-IsAnswer : IsAnswer f → IsAnswer (cycle_date date f)
  cycle_date-IsAnswer v = record {
    accepted_once = cycle_date_once.0;
    declined_once = cycle_date_once.1;
    apart = λ z. ground (arith, contains-cycle_accepted z, contains-cycle_declined z, v.apart z);
  }

  cycle_date-IsWithin :
      (dates : List (List ℕ))
      → contains dates date ≡ true
      → IsWithin dates f
      → IsWithin dates (cycle_date date f)
  cycle_date-IsWithin dates asked w z h =
      ground (arith, contains-cycle_accepted z, contains-cycle_declined z, text_beq_iff z date, w z)

-- The server's bid answers no date twice.
abbrev pub IsSound : Option Bid → Type 0
IsSound none = Unit
IsSound (some b) =
    Distinct b.accepted_dates
    × Distinct b.declined_dates
    × ((z : List ℕ) → contains b.accepted_dates z && contains b.declined_dates z ≡ false)

module _ (job : JobRequest) where
  new_modal-IsAnswer :
      (o : Option Bid) → job.my_bid ≡ o → IsSound o → IsAnswer (new_modal job).bid_form
  unfolding new_modal
  new_modal-IsAnswer none e s =
      rw e (record { accepted_once = tt; declined_once = tt; apart = λ z. refl })
  new_modal-IsAnswer (some b) e s = rw e (record {
    accepted_once = Distinct-keep (contains (set_of job.sitting_dates)) b.accepted_dates s.0;
    declined_once = Distinct-keep (contains (set_of job.sitting_dates)) b.declined_dates s.1;
    apart = λ z. ground (
      arith,
      contains-keep (contains (set_of job.sitting_dates)) b.accepted_dates z,
      contains-keep (contains (set_of job.sitting_dates)) b.declined_dates z,
      s.2 z,
    );
  })

  new_modal-IsWithin :
      (o : Option Bid) → job.my_bid ≡ o → IsWithin job.sitting_dates (new_modal job).bid_form
  unfolding new_modal
  new_modal-IsWithin none e z h = ground arith
  new_modal-IsWithin (some b) e z h = ground (
    arith,
    contains-keep (contains (set_of job.sitting_dates)) b.accepted_dates z,
    contains-keep (contains (set_of job.sitting_dates)) b.declined_dates z,
    contains-set_of job.sitting_dates z,
  )

  -- The clicks that the calendar passes on, one after the other.
  abbrev pub click_dates : BidForm → List (List ℕ) → BidForm
  click_dates = foldl (λ f date. cycle_date date f)

  abbrev pub IsEnabled : BidForm → List ℕ → Type 0
  IsEnabled f date =
      (requested_cell job.sitting_dates f.accepted_dates f.declined_dates date).enabled ≡ true

  -- Each click is on a date that the calendar, drawn for the form of that moment, lets through.
  abbrev pub AreEnabled : BidForm → List (List ℕ) → Type 0
  AreEnabled f [] = Unit
  AreEnabled f (date ∷ dates) = IsEnabled f date × AreEnabled (cycle_date date f) dates

  click_dates-keeps :
      (dates : List (List ℕ)) (f : BidForm)
      → AreEnabled f dates
      → IsAnswer f
      → IsWithin job.sitting_dates f
      → IsAnswer (click_dates f dates) × IsWithin job.sitting_dates (click_dates f dates)
  unfolding requested_cell
  click_dates-keeps [] f es v w = (v, w)
  click_dates-keeps (date ∷ dates) f es v w =
      click_dates-keeps dates (cycle_date date f) es.1 (cycle_date-IsAnswer date f v)
        (cycle_date-IsWithin date f job.sitting_dates (rw contains-set_of at es.0) w)

  -- However the sitter clicks on the calendar of a request, also of one that has changed since the
  -- last bid, the form answers dates that are asked for only, each once, none both ways, if the
  -- bid that it began with answered no date twice.
  pub click_dates-IsAnswer :
      (dates : List (List ℕ))
      → IsSound job.my_bid
      → AreEnabled (new_modal job).bid_form dates
      → let f = click_dates (new_modal job).bid_form dates in
        IsAnswer f × IsWithin job.sitting_dates f
  click_dates-IsAnswer dates s es =
      click_dates-keeps dates (new_modal job).bid_form es (new_modal-IsAnswer job.my_bid refl s)
        (new_modal-IsWithin job.my_bid refl)
