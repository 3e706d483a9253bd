-- ===== src/SignIn.antt =====
-- The user of the session: app/frontend/context/AuthContext.jsx, the guard of pages for users,
-- app/frontend/components/RequireAuth.jsx, and the form to sign in, app/frontend/pages/Login.jsx. The
-- browser's place is a path with the state that came with it.
pub mod Returns
mod Examples
use roost_assured.Common.{
  ℕ, zero, suc, ◌+◌, ◌-◌, ◌*◌, ◌/◌, ◌%◌, ◌≤◌, ◌<◌, String, ◌≡◌, refl, sym, ap, ◌∙◌, ◌≢◌, ◌↔◌, ◌⊎◌,
  inl, inr, Bool, true, false, not, ◌&&◌, ◌||◌, Option, none, some, List, [], ◌∷◌, ◌++◌, map, arith,
  ltb, leb, nat_beq, if◌then◌else◌, ltb→lt, lt→ltb, nat_beq_iff, Bool-cases, Option-cases,
  Comparable, ◌==◌, number_key, string_key, ==_refl, ==_false, ==_comm, length, All, keep, any,
  every, find, when, length-append, length-keep, keep-append, keep-keep, contains, contains-append,
  contains-keep, first_some, without, find_id, contains-map-without, find_id-without,
  find_id-append, find_id-eq-none, All-keep, All-append,
}
use roost_assured.Common.Text.{is_empty, text_or}
use roost_assured.Common.View.{Node, heading, words, alert, field, submit, link}
use roost_assured.Api.{Settled, fulfilled, rejected, message_or}

-- `AuthProvider`.
pub record Auth (User : Type 0) : Type 0 where
  pub user : Option User
  pub loading : Bool

unfoldable pub new_auth : {User : Type 0} → Auth User
new_auth = record { user = none; loading = true }

-- `refresh`, from the answer of /session on; its `user` may be null.
unfoldable pub refresh_finish : {User : Type 0} → Settled (Option User) → Auth User → Auth User
refresh_finish (fulfilled user) a = record { user = user; loading = false }
refresh_finish (rejected es) a = record { user = none; loading = false }

-- `logout`, which has no `catch`.
unfoldable pub logout_finish : {User : Type 0} → Settled {0} Unit → Auth User → Auth User
logout_finish (fulfilled r) a = record a { user = none }
logout_finish (rejected es) a = a

-- The place in the browser: its path, and `state.from`, if there is one.
pub record Location : Type 0 where
  pub pathname : String
  pub from : Option String

-- What `RequireAuth` draws: the wait, a redirect to another place, or its children.
pub data Guarded : Type 0 where
  waiting : Guarded
  navigate : Location → Guarded
  children : Guarded

abbrev guarded_user : {User : Type 0} → Option User → Location → Guarded
guarded_user none at = navigate record { pathname = "/login"; from = some at.pathname }
guarded_user (some user) at = children

unfoldable pub require_auth : {User : Type 0} → Auth User → Location → Guarded
require_auth a at = if a.loading then waiting else guarded_user a.user at

pub record LoginForm : Type 0 where
  pub email_address : String
  pub password : String
  pub error : Option String
  pub submitting : Bool

unfoldable pub new_form : LoginForm
new_form = record { email_address = ""; password = ""; error = none; submitting = false }

-- `location.state?.from || "/"`.
unfoldable pub destination : Location → String
destination at = elim at.from [ none ↦ "/" | some path ↦ text_or path "/" ]

pub data LoginField : Type 0 where
  email_address_field password_field : LoginField

-- `handleChange`.
unfoldable pub change : LoginField → String → LoginForm → LoginForm
change email_address_field value f = record f { email_address = value }
change password_field value f = record f { password = value }

-- `handleSubmit` up to its request, and what it sends.
unfoldable pub login_start : LoginForm → LoginForm × String × String
login_start f = (record f { submitting = true; error = none }, f.email_address, f.password)

-- The rest of `handleSubmit`: the form, the session, and the place that the browser is in after it.
unfoldable pub login_finish :
    {User : Type 0}
    → Settled User
    → LoginForm
    → Auth User
    → Location
    → LoginForm × Auth User × Location
unfolding destination
login_finish (fulfilled user) f a at = (
  record f { submitting = false },
  record a { user = some user },
  record { pathname = destination at; from = none },
)
login_finish (rejected es) f a at = (
  record f {
    error = some (message_or es "Try another email address or password.");
    submitting = false;
  },
  a,
  at,
)

abbrev error_part : Option String → List (Node LoginField)
error_part none = []
error_part (some t) = if is_empty t then [] else alert t ∷ []

unfoldable pub render_login : LoginForm → List (Node LoginField)
render_login f =
    heading "Sign in"
    ∷ (error_part f.error
        ++ (field "email_address" f.email_address true
            ∷ field "password" f.password true
            ∷ submit (if f.submitting then "Signing in…" else "Sign in") f.submitting
            ∷ link "/passwords/new"
            ∷ words "New here?"
            ∷ link "/signup"
            ∷ []))
