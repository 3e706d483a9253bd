-- ===== src/Admin.antt =====
-- The frame of the admin pages, app/frontend/pages/admin/AdminLayout.jsx: the form to sign in,
-- `AdminLogin`, and the layout, with the session storage that it shares with the calls of the pages.
pub mod Runs
mod Examples
use Prim.Native.String.{◌++◌ as text_append}
use roost_assured.Common.{
  ℕ, zero, suc, ◌+◌, ◌-◌, ◌*◌, ◌/◌, ◌%◌, ◌≤◌, ◌<◌, String, ◌≡◌, refl, sym, ap, ◌∙◌, ◌≢◌, ◌↔◌, ◌⊎◌,
  inl, inr, Bool, true, false, not, ◌&&◌, ◌||◌, Option, none, some, List, [], ◌∷◌, ◌++◌, map, arith,
  ltb, leb, nat_beq, if◌then◌else◌, ltb→lt, lt→ltb, nat_beq_iff, Bool-cases, Option-cases,
  Comparable, ◌==◌, number_key, string_key, ==_refl, ==_false, ==_comm, length, All, keep, any,
  every, find, when, length-append, length-keep, keep-append, keep-keep, contains, contains-append,
  contains-keep, first_some, without, find_id, contains-map-without, find_id-without,
  find_id-append, find_id-eq-none, All-keep, All-append,
}
use roost_assured.Common.Text.{is_empty}
use roost_assured.Common.View.{Node, heading, alert, field, submit, link, button, child}
use roost_assured.Api.Laws.{is_some}
use roost_assured.Api.{
  get, Request, nothing, Answer, Session, Event, admin_auth_required, Codec, is_ok, truthy,
  get_admin_auth, set_admin_auth, clear_admin_auth, settle,
}

pub record Login : Type 0 where
  pub username : String
  pub password : String
  pub error : Option String
  pub submitting : Bool

abbrev pub new_login : Login
new_login = record { username = ""; password = ""; error = none; submitting = false }

-- `authed`, the form, and the session storage.
pub record Layout : Type 0 where
  pub authed : Bool
  pub login : Login
  pub session : Session

-- What `fetch` ends with: an answer, or an error with its message.
pub data Fetched : Type 0 where
  answered : Answer → Fetched
  failed : String → Fetched

-- `useState(() => !!getAdminAuth())`.
unfoldable pub new_layout : Session → Layout
unfolding get_admin_auth
new_layout session = record {
  authed = is_some (truthy (get_admin_auth session));
  login = new_login;
  session = session;
}

-- `handleSubmit` up to its request.
unfoldable pub login_start : Layout → Layout
login_start l = record l { login = record l.login { submitting = true; error = none } }

abbrev pub login_error : String → Layout → Layout
login_error message l = record l {
  login = record l.login { error = some message; submitting = false };
}

-- The listener: `onAuthRequired`.
abbrev pub hear : List Event → Layout → Layout
hear [] l = l
hear (admin_auth_required ∷ events) l = record l { authed = false }

module _ {J D : Type 0} (codec : Codec J D) where
  unfoldable pub login_request : {F : Type 0} → String → String → Request F
  login_request username password = record {
    url = "/api/admin/waitlist_signups";
    method = get;
    headers =
        ("Accept", "application/json")
        ∷ (
          "Authorization",
          text_append "Basic " (codec.btoa (text_append username (text_append ":" password))),
        )
        ∷ [];
    body = nothing;
  }

  -- The rest of `handleSubmit`, with the name and the password that it had closed over; the form is
  -- a new one when it is shown again.
  unfoldable pub login_finish : String → String → Fetched → Layout → Layout
  unfolding is_ok set_admin_auth
  login_finish username password (failed message) l = login_error message l
  login_finish username password (answered r) l =
      if is_ok r
      then record {
        authed = true;
        login = new_login;
        session = set_admin_auth codec username password l.session;
      }
      else login_error "Invalid admin username or password." l

  -- A call of `api` is answered: the session that it leaves, and its events.
  unfoldable pub call_finish : String → Answer → Layout → Layout
  unfolding settle
  call_finish path r l =
      let (outcome, session, events) = settle codec l.session path r in
      hear events (record l { session = session })

-- `logOut`.
unfoldable pub log_out : Layout → Layout
unfolding clear_admin_auth
log_out l = record l { session = clear_admin_auth l.session; authed = false }

pub data AdminAction : Type 0 where
  log_out_click : AdminAction

abbrev error_part : Option String → List (Node AdminAction)
error_part none = []
error_part (some t) = if is_empty t then [] else alert t ∷ []

-- `AdminLogin`.
render_login : Login → List (Node AdminAction)
render_login f =
    heading "Admin sign in"
    ∷ (error_part f.error
        ++ (field "admin-username" f.username true
            ∷ field "admin-password" f.password true
            ∷ submit (if f.submitting then "Signing in…" else "Sign in") f.submitting
            ∷ []))

abbrev pages : List String
pages =
    "/admin/waitlist_signups" ∷ "/admin/users" ∷ "/admin/sitter_applications" ∷ "/admin/sitters"
    ∷ "/admin/service_areas" ∷ "/admin/zip_searches" ∷ "/admin/heatmap" ∷ "/admin/jobs"
    ∷ "/admin/payments" ∷ "/admin/reports" ∷ []

-- `AdminLayout`; the page of the address is the child `Outlet`.
unfoldable pub render_layout : Layout → List (Node AdminAction)
unfolding render_login
render_layout l =
    if l.authed
    then map link pages ++ (button "Log out" false log_out_click ∷ child "Outlet" 0 ∷ [])
    else render_login l.login
