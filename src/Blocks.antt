-- ===== src/Blocks.antt =====
-- The menu to block or report a user, app/frontend/components/BlockReportMenu.jsx. The number of the
-- user, which the request carries, is a parameter; the browser's question is an argument.
pub mod Laws
mod Examples
use roost_assured.Common.{
  ℕ, zero, suc, ◌+◌, ◌-◌, ◌*◌, ◌/◌, ◌%◌, ◌≤◌, ◌<◌, String, ◌≡◌, refl, sym, ap, ◌∙◌, ◌≢◌, ◌↔◌, ◌⊎◌,
  inl, inr, Bool, true, false, not, ◌&&◌, ◌||◌, Option, none, some, List, [], ◌∷◌, ◌++◌, map, arith,
  ltb, leb, nat_beq, if◌then◌else◌, ltb→lt, lt→ltb, nat_beq_iff, Bool-cases, Option-cases,
  Comparable, ◌==◌, number_key, string_key, ==_refl, ==_false, ==_comm, length, All, keep, any,
  every, find, when, length-append, length-keep, keep-append, keep-keep, contains, contains-append,
  contains-keep, first_some, without, find_id, contains-map-without, find_id-without,
  find_id-append, find_id-eq-none, All-keep, All-append,
}
use roost_assured.Common.Text.{is_empty}
use roost_assured.Common.View.{
  Node, heading, words, shown, notice, alert, option, field, button, submit, child,
}
use roost_assured.Api.{Settled, fulfilled, rejected, message_or}

pub record Menu : Type 0 where
  pub open_menu : Bool
  pub report_open : Bool
  pub blocking : Bool
  pub blocked : Bool

unfoldable pub new_menu : Menu
new_menu = record { open_menu = false; report_open = false; blocking = false; blocked = false }

-- `handleBlock` up to its request, and whether it makes one: the visitor may say no.
unfoldable pub block_start : Bool → Menu → Menu × Bool
block_start confirmed m = if confirmed then (record m { blocking = true }, true) else (m, false)

-- The rest of `handleBlock`, and the user that it passes to `onBlocked`.
unfoldable pub block_finish : {A : Type 0} → ℕ → Settled A → Menu → Menu × Option ℕ
block_finish target (fulfilled a) m =
    (record m { blocked = true; open_menu = false; blocking = false }, some target)
block_finish target (rejected es) m = (record m { blocking = false }, none)

-- A click outside of the menu, on its button, and on "Report user"; the report form is closed.
unfoldable pub click_outside : Menu → Menu
click_outside m = if m.open_menu then record m { open_menu = false } else m

unfoldable pub click_button : Menu → Menu
click_button m = record m { open_menu = not m.open_menu }

unfoldable pub click_report : Menu → Menu
click_report m = record m { report_open = true; open_menu = false }

unfoldable pub close_report : Menu → Menu
close_report m = record m { report_open = false }

pub data MenuAction : Type 0 where
  toggle_menu block_user report_user : MenuAction

unfoldable pub render_menu : ℕ → Menu → List (Node MenuAction)
render_menu target m =
    if m.blocked
    then words "Blocked" ∷ []
    else button "⋯" false toggle_menu
      ∷ (when m.open_menu (
            button (if m.blocking then "Blocking…" else "Block user") m.blocking block_user
            ∷ button "Report user" false report_user
            ∷ [])
          ++ when m.report_open (child "ReportModal" target ∷ []))

-- `REASONS`, and the report form, `ReportModal`.
pub data Reason : Type 0 where
  no_show inappropriate_behavior unsafe_conditions payment_dispute spam other : Reason

abbrev pub reason_label : Reason → String
reason_label no_show = "Didn't show up"
reason_label inappropriate_behavior = "Inappropriate behavior"
reason_label unsafe_conditions = "Unsafe conditions"
reason_label payment_dispute = "Payment dispute"
reason_label spam = "Spam or scam"
reason_label other = "Something else"

abbrev pub reasons : List Reason
reasons = no_show ∷ inappropriate_behavior ∷ unsafe_conditions ∷ payment_dispute ∷ spam ∷ other ∷ []

pub record Report : Type 0 where
  pub reason : Reason
  pub details : String
  pub submitting : Bool
  pub error : Option String
  pub submitted : Bool

unfoldable pub new_report : Report
new_report = record {
  reason = no_show;
  details = "";
  submitting = false;
  error = none;
  submitted = false;
}

-- `handleSubmit` up to its request, and the reason and details that it sends.
unfoldable pub report_start : Report → Report × Reason × String
report_start r = (record r { submitting = true; error = none }, r.reason, r.details)

unfoldable pub report_finish : {A : Type 0} → Settled A → Report → Report
report_finish (fulfilled a) r = record r { submitted = true; submitting = false }
report_finish (rejected es) r = record r {
  error = some (message_or es "Something went wrong.");
  submitting = false;
}

pub data ReportAction : Type 0 where
  close : ReportAction
  choose : Reason → ReportAction

abbrev report_error : Option String → List (Node ReportAction)
report_error none = []
report_error (some e) = if is_empty e then [] else alert e ∷ []

abbrev is_reason : Reason → Reason → Bool
is_reason no_show no_show = true
is_reason inappropriate_behavior inappropriate_behavior = true
is_reason unsafe_conditions unsafe_conditions = true
is_reason payment_dispute payment_dispute = true
is_reason spam spam = true
is_reason other other = true
is_reason _ _ = false

unfoldable pub render_report : String → Report → List (Node ReportAction)
render_report target_name r =
    heading "Report"
    ∷ shown target_name
    ∷ button "Close" false close
    ∷ (if r.submitted
        then notice "Thanks — our team will review this report." ∷ []
        else report_error r.error
          ++ (map (λ o. option (reason_label o) (is_reason r.reason o) (choose o)) reasons
              ++ (field "details" r.details false
                  ∷ submit (if r.submitting then "Submitting…" else "Submit report") r.submitting
                  ∷ [])))
