-- ===== src/Admin/Runs.antt =====
-- The admin pages of app/frontend/pages/admin/AdminLayout.jsx are in view just while credentials are
-- stored, and the calls of app/frontend/lib/api.js send them just then.
use mathlib.Core.List.{foldl}
use text.Mathlib.Text.{starts_with}
use Prim.Native.String.{◌++◌ as text_append}
use roost_assured.Common.{
  String, ◌≡◌, refl, sym, ap, ◌∙◌, Bool, true, false, ◌&&◌, Option, none, List, [], ◌∷◌, arith,
  nat_beq, if◌then◌else◌, number_key, string_key, when,
}
use roost_assured.Common.Tests.{if-cases}
use roost_assured.Common.Text.{is_empty}
use roost_assured.Common.View.{mounts}
use roost_assured.Api.{
  Method, Body, Answer, Session, Event, admin_auth_required, Codec, is_ok, truthy, get_admin_auth,
  set_admin_auth, clear_admin_auth, build_request,
}
use roost_assured.Api.Laws.{is_some, has_header, has_authorization, settle-session}
use roost_assured.Admin.{
  Layout, Fetched, answered, failed, new_layout, login_start, login_finish, call_finish, log_out,
  hear, render_layout, render_login, login_error,
}

-- What happens: the form is typed into and sent, its request ends, the visitor signs out, and a call
-- of a page on some path is answered.
pub data AdminEvent : Type 0 where
  typed_username typed_password : String → AdminEvent
  login_sent log_out_clicked : AdminEvent
  login_ended : String → String → Fetched → AdminEvent
  call_ended : String → Answer → AdminEvent

-- The pages are in view just while credentials are stored.
abbrev IsInStep : Layout → Type 0
IsInStep l = l.authed ≡ is_some (truthy l.session.admin_auth)

hear-IsInStep :
    (b : Bool) (events : List Event) (session : Session) (l : Layout)
    → events ≡ when b (admin_auth_required ∷ [])
    → session.admin_auth ≡ (if b then none else l.session.admin_auth)
    → IsInStep l
    → IsInStep (hear events (record l { session = session }))
hear-IsInStep true events session l told auth i = rw told (rw auth refl)
hear-IsInStep false events session l told auth i = rw told (rw auth i)

mounts-render_layout : (l : Layout) → mounts "Outlet" 0 (render_layout l) ≡ l.authed
unfolding render_layout render_login
mounts-render_layout l = ground arith

module _ {J D : Type 0} (codec : Codec J D) where
  unfoldable pub on_admin : Layout → AdminEvent → Layout
  unfolding login_start login_finish log_out call_finish
  on_admin l (typed_username t) = record l { login = record l.login { username = t } }
  on_admin l (typed_password t) = record l { login = record l.login { password = t } }
  on_admin l login_sent = login_start l
  on_admin l log_out_clicked = log_out l
  on_admin l (login_ended username password r) = login_finish codec username password r l
  on_admin l (call_ended path r) = call_finish codec path r l

  module _
      (encodes : (username password : String)
        → is_empty (codec.btoa (text_append username (text_append ":" password))) ≡ false) where
    login_finish-IsInStep :
        (username password : String) (r : Fetched) (l : Layout)
        → IsInStep l
        → IsInStep (login_finish codec username password r l)
    unfolding login_finish set_admin_auth
    login_finish-IsInStep username password (failed message) l i = i
    login_finish-IsInStep username password (answered r) l i =
        if-cases IsInStep (is_ok r) _ (login_error "Invalid admin username or password." l)
          (λ h. rw (encodes username password) refl) (λ h. i)

    call_finish-IsInStep :
        (path : String) (r : Answer) (l : Layout)
        → IsInStep l
        → IsInStep (call_finish codec path r l)
    unfolding call_finish
    call_finish-IsInStep path r l i =
        let (auth, told) = settle-session codec l.session path r in
        hear-IsInStep (nat_beq r.status 401 && starts_with path "/admin") _ _ l told auth i

    on_admin-IsInStep : (l : Layout) (e : AdminEvent) → IsInStep l → IsInStep (on_admin l e)
    unfolding on_admin login_start log_out clear_admin_auth
    on_admin-IsInStep l (typed_username t) i = i
    on_admin-IsInStep l (typed_password t) i = i
    on_admin-IsInStep l login_sent i = i
    on_admin-IsInStep l log_out_clicked i = refl
    on_admin-IsInStep l (login_ended username password r) i =
        login_finish-IsInStep username password r l i
    on_admin-IsInStep l (call_ended path r) i = call_finish-IsInStep path r l i

    foldl-IsInStep :
        (es : List AdminEvent) (l : Layout) → IsInStep l → IsInStep (foldl on_admin l es)
    foldl-IsInStep [] l i = i
    foldl-IsInStep (e ∷ es) l i = foldl-IsInStep es (on_admin l e) (on_admin-IsInStep l e i)

    new_layout-IsInStep : (session : Session) → IsInStep (new_layout session)
    unfolding new_layout get_admin_auth
    new_layout-IsInStep session = refl

    -- Whatever happens to the admin pages, from any session storage on and in any order, a call on an
    -- admin path carries credentials just while a page of theirs is in view, and any other call never
    -- does; if Base64 gives no empty text for a name and a password.
    pub admin_run-credentials :
        {F : Type 0} (session : Session) (es : List AdminEvent) (csrf_token : Option String)
        (path : String) (m : Method) (body : Body F J)
        → has_header "Authorization"
            (build_request codec csrf_token
              (foldl on_admin (new_layout session) es).session
              path
              m
              body).headers
          ≡ starts_with path "/admin"
            && mounts "Outlet" 0 (render_layout (foldl on_admin (new_layout session) es))
    admin_run-credentials session es csrf_token path m body =
        let l = foldl on_admin (new_layout session) es in
        has_authorization codec csrf_token l.session path m body
        ∙ ap (starts_with path "/admin" &&◌) (
            sym (foldl-IsInStep es (new_layout session) (new_layout-IsInStep session))
            ∙ sym (mounts-render_layout l))
