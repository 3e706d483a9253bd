-- ===== src/Api/Laws.antt =====
-- What every call of app/frontend/lib/api.js does with the credentials of the admin pages.
use text.Mathlib.Text.{starts_with}
use Prim.Native.String.{◌++◌ as text_append}
use roost_assured.Common.{
  String, ◌≡◌, ap, ◌⊎◌, inl, inr, Bool, true, false, not, ◌&&◌, Option, none, some, List, [], ◌∷◌,
  arith, nat_beq, if◌then◌else◌, Bool-cases, ◌==◌, number_key, string_key, any, when,
}
use roost_assured.Common.Text.{is_empty}
use roost_assured.Api.{
  Method, Body, Answer, Session, admin_auth_required, is_ok, Codec, truthy, build_request, Request,
  settle, clear_admin_auth,
}

abbrev pub is_some {ℓ} : {A : Type ℓ} → Option A → Bool
is_some none = false
is_some (some a) = true

-- Is there a header of this name?
abbrev pub has_header : String → List (String × String) → Bool
has_header name hs = any (λ h. h.0 == name) hs

pub settle-session :
    {J D : Type 0} (codec : Codec J D) (session : Session) (path : String) (r : Answer)
    → let signed_out = nat_beq r.status 401 && starts_with path "/admin" in
      ((settle codec session path r).1.admin_auth
        ≡ (if signed_out then none else session.admin_auth))
      × ((settle codec session path r).2 ≡ when signed_out (admin_auth_required ∷ []))
unfolding settle clear_admin_auth is_ok
settle-session codec session path r = ground arith

-- The value of the first header of this name.
abbrev pub header : String → List (String × String) → Option String
header name [] = none
header name (h ∷ hs) = if h.0 == name then some h.1 else header name hs

-- What `f` makes of a text that is there and not empty.
abbrev pub given : (String → String) → Option String → Option String
given f none = none
given f (some s) = if is_empty s then none else some (f s)

module _ {J D F : Type 0} (codec : Codec J D) where
  pub has_authorization :
      (csrf_token : Option String) (session : Session) (path : String) (m : Method)
      (body : Body F J)
      → has_header "Authorization" (build_request codec csrf_token session path m body).headers
        ≡ starts_with path "/admin" && is_some (truthy session.admin_auth)
  unfolding build_request
  has_authorization csrf_token session path m body = ground arith

  -- A call on a path of the admin pages sends the stored credentials, if there are any, after the word
  -- Basic; any other call sends no credentials. Every call sends the token of the page, if it holds
  -- one, in the header that protects against forgery.
  pub build_request_credentials :
      (csrf_token : Option String) (session : Session) (path : String) (m : Method)
      (body : Body F J)
      → let sent = (build_request codec csrf_token session path m body).headers in
        (header "Authorization" sent ≡ (
          if starts_with path "/admin"
          then given (text_append "Basic ") session.admin_auth
          else none))
        × (header "X-CSRF-Token" sent ≡ given (λ t. t) csrf_token)
  unfolding build_request
  build_request_credentials csrf_token session path m body = ground arith

  -- An answer 401 to a call of an admin path takes the credentials off all later calls, and tells
  -- the admin pages; after any other answer each later call sends just what it would have sent
  -- before, and nothing is told.
  pub settle-build_request :
      (csrf_token : Option String) (session : Session) (path next : String) (r : Answer)
      (m : Method) (body : Body F J)
      → let (outcome, session', events) = settle codec session path r in
        let signed_out = nat_beq r.status 401 && starts_with path "/admin" in
        let later = build_request codec csrf_token session' next m body in
        let before = build_request codec csrf_token session next m body in
        (has_header "Authorization" later.headers
          ≡ has_header "Authorization" before.headers && not signed_out)
        × ((signed_out ≡ true)
              × (later ≡ build_request codec csrf_token (record { admin_auth = none }) next m body)
            ⊎ (signed_out ≡ false) × (later ≡ before))
        × (events ≡ when signed_out (admin_auth_required ∷ []))
  settle-build_request csrf_token session path next r m body =
      let (auth, told) = settle-session codec session path r in
      let request : Option String → Request F =
        λ a. build_request codec csrf_token (record { admin_auth = a }) next m body in
      (
        ground (
          arith,
          auth,
          has_authorization csrf_token session next m body,
          has_authorization csrf_token (settle codec session path r).1 next m body,
        ),
        elim (Bool-cases (nat_beq r.status 401 && starts_with path "/admin")) [
          | inl p ↦ inl (p, ap request (rw p at auth))
          | inr p ↦ inr (p, ap request (rw p at auth))
        ],
        told,
      )
