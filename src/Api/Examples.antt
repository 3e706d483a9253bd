-- ===== src/Api/Examples.antt =====
-- The theorems on app/frontend/lib/api.js at a call of the admin pages. The texts of this codec
-- stand for themselves.
use text.Mathlib.Text.{starts_with}
use Prim.Native.String.{◌++◌ as text_append}
use roost_assured.Common.{
  String, ◌≡◌, ◌⊎◌, true, false, not, ◌&&◌, none, some, [], ◌∷◌, nat_beq, if◌then◌else◌, number_key,
  string_key, when,
}
use roost_assured.Api.{
  get, Body, no_body, Answer, Session, admin_auth_required, Codec, build_request, settle,
}
use roost_assured.Api.Laws.{
  header, given, has_header, build_request_credentials, settle-build_request,
}

abbrev texts : Codec String String
texts = record {
  stringify = λ s. s;
  parse = λ s. some s;
  errors = λ s. some (s ∷ []);
  btoa = λ s. s;
}

abbrev empty_body : Body String String
empty_body = no_body

abbrev signed_in : Session
signed_in = record { admin_auth = some "admin:secret" }

build_request_credentials_example :
    let sent =
      (build_request texts (some "token") signed_in "/admin/jobs" get empty_body).headers in
    (header "Authorization" sent ≡ (
      if starts_with "/admin/jobs" "/admin"
      then given (text_append "Basic ") (some "admin:secret")
      else none))
    × (header "X-CSRF-Token" sent ≡ given (λ t. t) (some "token"))
build_request_credentials_example =
    build_request_credentials texts (some "token") signed_in "/admin/jobs" get empty_body

abbrev refusal : Answer
refusal = record { status = 401; text = "" }

settle-build_request_example :
    let (outcome, session', events) = settle texts signed_in "/admin/jobs" refusal in
    let signed_out = nat_beq 401 401 && starts_with "/admin/jobs" "/admin" in
    let later = build_request texts none session' "/admin/jobs" get empty_body in
    let before = build_request texts none signed_in "/admin/jobs" get empty_body in
    (has_header "Authorization" later.headers
      ≡ has_header "Authorization" before.headers && not signed_out)
    × ((signed_out ≡ true)
          × (later
              ≡ build_request texts none
                  (record { admin_auth = none })
                  "/admin/jobs"
                  get
                  empty_body)
        ⊎ (signed_out ≡ false) × (later ≡ before))
    × (events ≡ when signed_out (admin_auth_required ∷ []))
settle-build_request_example =
    settle-build_request texts none signed_in "/admin/jobs" "/admin/jobs" refusal get empty_body
