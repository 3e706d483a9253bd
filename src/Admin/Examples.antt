-- ===== src/Admin/Examples.antt =====
-- The theorem on app/frontend/pages/admin/AdminLayout.jsx at a visitor who signs in and is signed out.
use mathlib.Core.List.{foldl}
use text.Mathlib.Text.{starts_with}
use roost_assured.Common.{
  ℕ, String, ◌≡◌, refl, ◌&&◌, none, some, List, [], ◌∷◌, ◌++◌, number_key, string_key,
}
use roost_assured.Common.View.{mounts}
use roost_assured.Api.{get, no_body, Answer, Session, Codec, build_request}
use roost_assured.Api.Laws.{has_header}
use roost_assured.Admin.{answered, new_layout, render_layout}
use roost_assured.Admin.Runs.{
  AdminEvent, typed_username, login_sent, login_ended, call_ended, on_admin, admin_run-credentials,
}

-- Values of JSON and answers are texts here, and an encoding is a text like any other.
abbrev texts : Codec String String
texts = record {
  stringify = λ j. j;
  parse = λ t. some t;
  errors = λ d. none;
  btoa = λ t. "encoded";
}

abbrev signed_out : Session
signed_out = record { admin_auth = none }

abbrev answer : ℕ → Answer
answer status = record { status = status; text = "" }

abbrev sign_in : List AdminEvent
sign_in =
    typed_username "ada"
    ∷ login_sent
    ∷ login_ended "ada" "secret" (answered (answer 200))
    ∷ call_ended "/admin/jobs" (answer 200)
    ∷ []

abbrev sign_in_and_out : List AdminEvent
sign_in_and_out = sign_in ++ call_ended "/admin/users" (answer 401) ∷ []

admin_run-credentials_example :
    has_header "Authorization"
      (build_request {J = String} {D = String} {F = String} texts none
        (foldl (on_admin texts) (new_layout signed_out) sign_in_and_out).session
        "/admin/jobs"
        get
        no_body).headers
    ≡ starts_with "/admin/jobs" "/admin"
      && mounts "Outlet" 0
          (render_layout (foldl (on_admin texts) (new_layout signed_out) sign_in_and_out))
admin_run-credentials_example =
    admin_run-credentials texts (λ username password. refl) {F = String} signed_out sign_in_and_out
      none "/admin/jobs" get no_body
