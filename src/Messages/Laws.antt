-- ===== src/Messages/Laws.antt =====
-- What can happen to a thread of app/frontend/components/MessageThread.jsx, and what it sends.
use mathlib.Core.List.{foldl}
use roost_assured.Common.{
  ℕ, ◌≡◌, refl, inl, inr, Bool, true, false, Option, none, some, List, [], ◌∷◌, if◌then◌else◌,
  Bool-cases, number_key, string_key, All,
}
use roost_assured.Api.{Settled, fulfilled, rejected}
use roost_assured.Api.Laws.{is_some}
use roost_assured.Messages.{Message, Thread, is_blank, opened, list_finish, send_start, send_finish}

pub data ThreadEvent : Type 0 where
  typed : List ℕ → ThreadEvent
  send_clicked : ThreadEvent
  list_answered send_answered : Settled (List Message) → ThreadEvent

-- The thread, whether the request for the list is under way, the text of the message that is, and
-- all that were sent, the last first.
pub record World : Type 0 where
  pub thread : Thread
  pub listing : Bool
  pub posting : Option (List ℕ)
  pub posted : List (List ℕ)

abbrev pub new_world : World
new_world = record { thread = opened; listing = true; posting = none; posted = [] }

abbrev note_post : Option (List ℕ) → List (List ℕ) → List (List ℕ)
note_post none ts = ts
note_post (some t) ts = t ∷ ts

abbrev after_send : Thread × Option (List ℕ) → World → World
after_send (t, post) w = record w { thread = t; posting = post; posted = note_post post w.posted }

-- The button is disabled while a message is sent; an answer comes only to a request under way.
unfoldable pub on_thread : World → ThreadEvent → World
unfolding send_start list_finish send_finish
on_thread w (typed text) = record w { thread = record w.thread { body = text } }
on_thread w send_clicked = if w.thread.sending then w else after_send (send_start w.thread) w
on_thread w (list_answered r) =
    if w.listing then record w { thread = list_finish r w.thread; listing = false } else w
on_thread w (send_answered r) =
    if is_some w.posting then record w { thread = send_finish r w.thread; posting = none } else w

pub record IsSound (w : World) : Type 0 where
  pub sending : w.thread.sending ≡ is_some w.posting
  pub loading : w.thread.loading ≡ w.listing
  pub spoken : All (λ t. is_blank t ≡ false) w.posted

send-IsSound :
    (w : World)
    → w.thread.sending ≡ false
    → IsSound w
    → IsSound (after_send (send_start w.thread) w)
unfolding send_start
send-IsSound w idle h = elim (Bool-cases (is_blank w.thread.body)) [
  | inl p ↦ rw p (record { sending = idle; loading = h.loading; spoken = h.spoken })
  | inr p ↦ rw p (record { sending = refl; loading = h.loading; spoken = (p, h.spoken) })
]

list_finish-IsSound :
    (w : World) (r : Settled (List Message))
    → IsSound w
    → IsSound (record w { thread = list_finish r w.thread; listing = false })
unfolding list_finish
list_finish-IsSound w (fulfilled ms) h = record {
  sending = h.sending;
  loading = refl;
  spoken = h.spoken;
}
list_finish-IsSound w (rejected es) h = record {
  sending = h.sending;
  loading = refl;
  spoken = h.spoken;
}

send_finish-IsSound :
    (w : World) (r : Settled (List Message))
    → IsSound w
    → IsSound (record w { thread = send_finish r w.thread; posting = none })
unfolding send_finish
send_finish-IsSound w (fulfilled ms) h = record {
  sending = refl;
  loading = h.loading;
  spoken = h.spoken;
}
send_finish-IsSound w (rejected es) h = record {
  sending = refl;
  loading = h.loading;
  spoken = h.spoken;
}

either-IsSound :
    (b : Bool) (v w : World)
    → (b ≡ true → IsSound v)
    → (b ≡ false → IsSound w)
    → IsSound (if b then v else w)
either-IsSound true v w h k = h refl
either-IsSound false v w h k = k refl

on_thread-IsSound : (w : World) (e : ThreadEvent) → IsSound w → IsSound (on_thread w e)
unfolding on_thread
on_thread-IsSound w (typed text) h = record {
  sending = h.sending;
  loading = h.loading;
  spoken = h.spoken;
}
on_thread-IsSound w send_clicked h =
    either-IsSound w.thread.sending w (after_send (send_start w.thread) w) (λ _. h)
      (λ idle. send-IsSound w idle h)
on_thread-IsSound w (list_answered r) h =
    either-IsSound w.listing (record w { thread = list_finish r w.thread; listing = false }) w
      (λ _. list_finish-IsSound w r h) (λ _. h)
on_thread-IsSound w (send_answered r) h =
    either-IsSound (is_some w.posting)
      (record w { thread = send_finish r w.thread; posting = none }) w
      (λ _. send_finish-IsSound w r h) (λ _. h)

events-IsSound : (es : List ThreadEvent) (w : World) → IsSound w → IsSound (foldl on_thread w es)
events-IsSound [] w h = h
events-IsSound (e ∷ es) w h = events-IsSound es (on_thread w e) (on_thread-IsSound w e h)

-- Whatever happens to a thread from its opening on: it shows that it is sending just while one
-- message is under way, and that it is loading just while its list is; and no message that was sent
-- is blank.
pub opened-IsSound : (es : List ThreadEvent) → IsSound (foldl on_thread new_world es)
unfolding opened
opened-IsSound es =
    events-IsSound es new_world (record { sending = refl; loading = refl; spoken = tt })

-- A message can be sent before the list of the opening has come. If the list comes first, the thread
-- ends with the messages that the server answered to the new one; if it comes last, with the list
-- of the opening.
pub list_answered-send_answered :
    (text : List ℕ) (old new : List Message)
    → is_blank text ≡ false
    → let sent = foldl on_thread new_world (typed text ∷ send_clicked ∷ []) in
      let listed = list_answered (fulfilled old) in
      let answered = send_answered (fulfilled new) in
      ((foldl on_thread sent (listed ∷ answered ∷ [])).thread.messages ≡ new)
      × ((foldl on_thread sent (answered ∷ listed ∷ [])).thread.messages ≡ old)
unfolding opened on_thread send_start list_finish send_finish
list_answered-send_answered text old new p = rw p (refl, refl)
