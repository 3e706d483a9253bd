-- ===== src/Visitors/Waiting.antt =====
-- The waitlist form of app/frontend/components/WaitlistForm.jsx on the page of
-- app/frontend/pages/Home.jsx, whose `load` is its `onSuccess`: React keeps its state while the page
-- draws it, and drops it when the page does not.
use roost_assured.Common.{
  String, ◌≡◌, Option, none, some, List, if◌then◌else◌, number_key, string_key,
}
use roost_assured.Common.View.{mounts}
use roost_assured.Api.{Settled, fulfilled, rejected}
use roost_assured.Home.{Signup, Member}
use roost_assured.Home.Visits.{
  send_form, Visit, new_visit, HomeEvent, form_answer, form_sent, on_visit, drawn, under_way,
}
use roost_assured.Visitors.{
  WaitlistProps, Waitlist, new_waitlist, WaitlistEdit, edit_waitlist, waitlist_start,
  waitlist_finish,
}

-- The page, and the waitlist form that it draws, if it does.
pub record Together : Type 0 where
  pub visit : Visit
  pub waitlist : Option Waitlist

-- Events of the page, of the form, and the answer to the form.
pub data VisitorEvent : Type 0 where
  of_page : HomeEvent → VisitorEvent
  edited : WaitlistEdit → VisitorEvent
  sent : VisitorEvent
  waitlist_answer : Settled Signup → VisitorEvent

abbrev kept : WaitlistProps → Option Waitlist → Option Waitlist
kept props none = some (new_waitlist props)
kept props (some w) = some w

-- Without the value that came: the request of the form.
abbrev ended : Settled Signup → Settled {0} Unit
ended (fulfilled signup) = fulfilled tt
ended (rejected es) = rejected es

abbrev finished : Settled Signup → Option Waitlist → Option Waitlist
finished r none = none
finished r (some w) = some (waitlist_finish r w).0

abbrev pub submitted_of : Option Waitlist → Option Signup
submitted_of none = none
submitted_of (some w) = w.submitted

module _ (to_time : String → String) (code : Option String) (props : WaitlistProps) where
  -- What is left of the form on the page as it is drawn now.
  remount : Visit → Option Waitlist → Together
  remount v w = record {
    visit = v;
    waitlist = if mounts "WaitlistForm" 0 (drawn to_time code v) then kept props w else none;
  }

  unfoldable pub new_together : Option Member → Together
  unfolding remount
  new_together user = remount (new_visit user) none

  send : Together → Option Waitlist → Together
  unfolding remount
  send t none = t
  send t (some w) =
      if w.submitting
      then t
      else remount (on_visit to_time code t.visit (form_sent "WaitlistForm"))
          (some (waitlist_start props w).0)

  abbrev edit : WaitlistEdit → Option Waitlist → Option Waitlist
  edit e none = none
  edit e (some w) = some (edit_waitlist e w)

  unfoldable pub on_together : Together → VisitorEvent → Together
  unfolding remount send
  on_together t (of_page e) = remount (on_visit to_time code t.visit e) t.waitlist
  on_together t (edited e) = record t { waitlist = edit e t.waitlist }
  on_together t sent = send t t.waitlist
  on_together t (waitlist_answer r) =
      if under_way send_form t.visit.calls
      then remount (on_visit to_time code t.visit (form_answer (ended r))) (finished r t.waitlist)
      else t

  -- The form in view, if any, has no sign-up that was taken.
  abbrev IsOpen : Together → Type 0
  IsOpen t = submitted_of t.waitlist ≡ none
