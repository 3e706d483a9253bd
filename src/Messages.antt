-- ===== src/Messages.antt =====
-- The messages of a bid, app/frontend/components/MessageThread.jsx. A text that is typed is the list
-- of its code units, since the form asks whether it is blank.
pub mod Laws
mod Examples
use roost_assured.Common.{
  ℕ, zero, suc, ◌+◌, ◌-◌, ◌*◌, ◌/◌, ◌%◌, ◌≤◌, ◌<◌, String, ◌≡◌, refl, sym, ap, ◌∙◌, ◌≢◌, ◌↔◌, ◌⊎◌,
  inl, inr, Bool, true, false, not, ◌&&◌, ◌||◌, Option, none, some, List, [], ◌∷◌, ◌++◌, map, arith,
  ltb, leb, nat_beq, if◌then◌else◌, ltb→lt, lt→ltb, nat_beq_iff, Bool-cases, Option-cases,
  Comparable, ◌==◌, number_key, string_key, ==_refl, ==_false, ==_comm, length, All, keep, any,
  every, find, when, length-append, length-keep, keep-append, keep-keep, contains, contains-append,
  contains-keep, first_some, without, find_id, contains-map-without, find_id-without,
  find_id-append, find_id-eq-none, All-keep, All-append,
}
use roost_assured.Common.View.{Node, heading, words, shown, alert, button, number}
use roost_assured.Common.Text.{is_empty}
use roost_assured.Api.{Settled, fulfilled, rejected, message_or}

pub record Message : Type 0 where
  pub id : ℕ
  pub body : String
  pub mine : Bool
  pub sender_name : String

pub record Thread : Type 0 where
  pub messages : List Message
  pub body : List ℕ
  pub loading : Bool
  pub sending : Bool
  pub error : Option String

-- The white space that `trim` takes off.
abbrev is_space : ℕ → Bool
is_space c =
    (leb 9 c && leb c 13)
    || nat_beq c 32
    || nat_beq c 160
    || nat_beq c 5760
    || (leb 8192 c && leb c 8202)
    || nat_beq c 8232
    || nat_beq c 8233
    || nat_beq c 8239
    || nat_beq c 8287
    || nat_beq c 12288
    || nat_beq c 65279

-- `!text.trim()`.
unfoldable pub is_blank : List ℕ → Bool
is_blank text = every is_space text

-- The thread as it opens, with the request for its messages under way.
unfoldable pub opened : Thread
opened = record { messages = []; body = []; loading = true; sending = false; error = none }

-- The answer to that request; a failure is not handled.
unfoldable pub list_finish : Settled (List Message) → Thread → Thread
list_finish (fulfilled ms) t = record t { messages = ms; loading = false }
list_finish (rejected es) t = record t { loading = false }

-- `send` up to its request, and the text that it sends, if any.
unfoldable pub send_start : Thread → Thread × Option (List ℕ)
send_start t =
    if is_blank t.body then (t, none) else (record t { sending = true; error = none }, some t.body)

-- The rest of `send`.
unfoldable pub send_finish : Settled (List Message) → Thread → Thread
send_finish (fulfilled ms) t = record t { messages = ms; body = []; sending = false }
send_finish (rejected es) t = record t {
  error = some (message_or es "Something went wrong.");
  sending = false;
}

pub data ThreadAction : Type 0 where
  close send_click : ThreadAction

abbrev message_line : Message → List (Node ThreadAction)
message_line m = shown m.body ∷ shown (if m.mine then "You" else m.sender_name) ∷ []

message_lines : List Message → List (Node ThreadAction)
message_lines [] = []
message_lines (m ∷ ms) = message_line m ++ message_lines ms

thread_body : Thread → List (Node ThreadAction)
unfolding message_lines
thread_body t =
    if t.loading
    then words "Loading…" ∷ []
    else if nat_beq (length t.messages) 0
    then words "No messages yet — say hello." ∷ []
    else message_lines t.messages

thread_error : Option String → List (Node ThreadAction)
thread_error none = []
thread_error (some e) = if is_empty e then [] else alert e ∷ []

-- The thread as it is drawn, but for the field that holds the text.
unfoldable pub render_thread : Thread → List (Node ThreadAction)
unfolding thread_body thread_error message_lines is_blank
render_thread t =
    heading "Messages"
    ∷ button "Close" false close
    ∷ (thread_body t
        ++ (thread_error t.error ++ (button "Send" (t.sending || is_blank t.body) send_click ∷ [])))
