-- ===== src/Messages/Examples.antt =====
-- A thread of app/frontend/components/MessageThread.jsx in which one message is sent.
use mathlib.Core.List.{foldl}
use roost_assured.Common.{ℕ, ◌≡◌, refl, true, false, List, [], ◌∷◌, number_key, string_key}
use roost_assured.Api.{fulfilled}
use roost_assured.Messages.{Message, is_blank}
use roost_assured.Messages.Laws.{
  ThreadEvent, typed, send_clicked, list_answered, send_answered, new_world, on_thread, IsSound,
  opened-IsSound, list_answered-send_answered,
}

abbrev hello : Message
hello = record { id = 1; body = "Hello"; mine = true; sender_name = "Ada" }

abbrev events : List ThreadEvent
events =
    send_clicked
    ∷ typed (72 ∷ 105 ∷ [])
    ∷ send_clicked
    ∷ send_answered (fulfilled (hello ∷ []))
    ∷ list_answered (fulfilled [])
    ∷ []

opened-IsSound_example : IsSound (foldl on_thread new_world events)
opened-IsSound_example = opened-IsSound events

abbrev hi : List ℕ
hi = 72 ∷ 105 ∷ []

hi-spoken : is_blank hi ≡ false
unfolding is_blank
hi-spoken = refl

list_answered-send_answered_example :
    ((foldl on_thread new_world (
        typed hi
        ∷ send_clicked
        ∷ list_answered (fulfilled [])
        ∷ send_answered (fulfilled (hello ∷ []))
        ∷ [])).thread.messages
      ≡ hello ∷ [])
    × ((foldl on_thread new_world (
          typed hi
          ∷ send_clicked
          ∷ send_answered (fulfilled (hello ∷ []))
          ∷ list_answered (fulfilled [])
          ∷ [])).thread.messages
        ≡ [])
list_answered-send_answered_example = list_answered-send_answered hi [] (hello ∷ []) hi-spoken
