-- ===== src/Api.antt =====
-- app/frontend/lib/api.js: the requests of the client. `fetch` itself is the environment: a request
-- is what is handed to it, an answer what it resolves with. JSON and Base64 are parameters.
pub mod Laws
mod Examples
use text.Mathlib.Text.{starts_with}
use Prim.Native.String.{◌++◌ as text_append}
use roost_assured.Common.{
  ℕ, zero, suc, ◌+◌, ◌-◌, ◌*◌, ◌/◌, ◌%◌, ◌≤◌, ◌<◌, String, ◌≡◌, refl, sym, ap, ◌∙◌, ◌≢◌, ◌↔◌, ◌⊎◌,
  inl, inr, Bool, true, false, not, ◌&&◌, ◌||◌, Option, none, some, List, [], ◌∷◌, ◌++◌, map, arith,
  ltb, leb, nat_beq, if◌then◌else◌, ltb→lt, lt→ltb, nat_beq_iff, Bool-cases, Option-cases,
  Comparable, ◌==◌, number_key, string_key, ==_refl, ==_false, ==_comm, length, All, keep, any,
  every, find, when, length-append, length-keep, keep-append, keep-keep, contains, contains-append,
  contains-keep,
}
use roost_assured.Common.Text.{is_empty, text_or}

pub data Method : Type 0 where
  get post patch delete : Method

-- The `body` option: left out, a `FormData`, or another value.
pub data Body (F J : Type 0) : Type 0 where
  no_body : Body F J
  form_data : F → Body F J
  json : J → Body F J

-- What `fetch` sends of it.
pub data Payload (F : Type 0) : Type 0 where
  nothing : Payload F
  form : F → Payload F
  json_text : String → Payload F

-- The argument of `fetch`; `credentials: "include"` is on every request.
pub record Request (F : Type 0) : Type 0 where
  pub url : String
  pub method : Method
  pub headers : List (String × String)
  pub body : Payload F

-- The `Response`, with the text that `response.text()` gives.
pub record Answer : Type 0 where
  pub status : ℕ
  pub text : String

-- The key `ADMIN_AUTH_KEY` of the session storage.
pub record Session : Type 0 where
  pub admin_auth : Option String

-- What a call does besides: the event that tells the admin pages to ask for the password again.
pub data Event : Type 0 where
  admin_auth_required : Event

-- The promise of a call: the data, `none` for null, or the error that is thrown.
pub data Outcome (D : Type 0) : Type 0 where
  resolved : Option D → Outcome D
  thrown : String → ℕ → Option D → Outcome D

-- `response.ok`.
unfoldable pub is_ok : Answer → Bool
is_ok r = leb 200 r.status && leb r.status 299

unfoldable pub join : List String → String
join [] = ""
join (s ∷ []) = s
join (s ∷ t ∷ rest) = text_append s (text_append ", " (join (t ∷ rest)))

-- What `JSON` and `btoa` do: the text of a value, the value of a text (`none` where `JSON.parse`
-- throws, and for null), and the member `errors` of a value, an array or missing.
pub record Codec (J D : Type 0) : Type 0 where
  pub stringify : J → String
  pub parse : String → Option D
  pub errors : D → Option (List String)
  pub btoa : String → String

unfoldable pub get_admin_auth : Session → Option String
get_admin_auth s = s.admin_auth

unfoldable pub clear_admin_auth : Session → Session
clear_admin_auth s = record { admin_auth = none }

abbrev header_of : String → Option String → List (String × String)
header_of name none = []
header_of name (some value) = (name, value) ∷ []

-- A text counts unless it is missing or empty.
abbrev pub truthy : Option String → Option String
truthy none = none
truthy (some s) = if is_empty s then none else some s

abbrev basic : Option String → Option String
basic none = none
basic (some s) = some (text_append "Basic " s)

-- `(data && data.errors && data.errors.join(", ")) || "Request failed"`.
abbrev error_message : Option (List String) → String
error_message none = "Request failed"
error_message (some es) = text_or (join es) "Request failed"

module _ {J D : Type 0} (codec : Codec J D) where
  open codec use {stringify, parse, errors, btoa}

  unfoldable pub set_admin_auth : String → String → Session → Session
  set_admin_auth username password s = record {
    admin_auth = some (btoa (text_append username (text_append ":" password)));
  }

  abbrev read_text : String → Option D
  read_text t = if is_empty t then none else parse t

  abbrev error_list : Option D → Option (List String)
  error_list none = none
  error_list (some d) = errors d

  -- The second half of `request`, from the answer on.
  unfoldable pub settle : Session → String → Answer → Outcome D × Session × List Event
  unfolding is_ok clear_admin_auth join
  settle session path r =
      let d = read_text r.text in
      let signed_out = nat_beq r.status 401 && starts_with path "/admin" in
      if is_ok r then (resolved d, session, []) else (
        thrown (error_message (error_list d)) r.status d,
        if signed_out then clear_admin_auth session else session,
        when signed_out (admin_auth_required ∷ []),
      )

abbrev is_json : {F J : Type 0} → Body F J → Bool
is_json (json v) = true
is_json _ = false

module _ {J D F : Type 0} (codec : Codec J D) where
  abbrev payload : Body F J → Payload F
  payload no_body = nothing
  payload (form_data d) = form d
  payload (json v) = json_text (codec.stringify v)

  -- The first half of `request`, up to the call of `fetch`.
  unfoldable pub build_request : Option String → Session → String → Method → Body F J → Request F
  unfolding get_admin_auth
  build_request csrf_token session path method body = record {
    url = text_append "/api" path;
    method = method;
    headers =
        ("Accept", "application/json")
        ∷ (header_of "X-CSRF-Token" (truthy csrf_token)
            ++ (when (is_json body) (("Content-Type", "application/json") ∷ [])
                ++ when (starts_with path "/admin")
                    (header_of "Authorization" (basic (truthy (get_admin_auth session))))));
    body = payload body;
  }

-- What a caller sees of a call: the value that it awaited, or `err.data?.errors` of the error.
pub data Settled {ℓ} (A : Type ℓ) : Type ℓ where
  fulfilled : A → Settled A
  rejected : Option (List String) → Settled A

-- `err.data?.errors?.join(", ") || text`.
unfoldable pub message_or : Option (List String) → String → String
unfolding join
message_or none other = other
message_or (some es) other = text_or (join es) other

-- `err.data?.errors || [text]`: an empty array counts.
unfoldable pub errors_or : Option (List String) → String → List String
errors_or none other = other ∷ []
errors_or (some es) other = es
