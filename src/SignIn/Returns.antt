-- ===== src/SignIn/Returns.antt =====
-- A visitor who is sent to app/frontend/pages/Login.jsx comes back.
use roost_assured.Common.{
  String, ◌≡◌, refl, false, Option, none, some, List, number_key, string_key,
}
use roost_assured.Common.Text.{is_empty}
use roost_assured.Api.{fulfilled, rejected}
use roost_assured.SignIn.{
  Auth, Location, navigate, children, require_auth, LoginForm, destination, login_finish,
  refresh_finish,
}

module _ {User : Type 0} where
  -- If the server knows no user, which an error counts as, a guarded page sends the visitor to the form
  -- to sign in; once the server has taken the form, the visitor is back at the path of that page, and
  -- the guard draws it; if the server refuses it, the visitor stays at the form, and the guard keeps to
  -- its redirect; for a path that is not empty.
  pub login_finish-require_auth :
      (user : User) (errors refused : Option (List String)) (form : LoginForm) (a : Auth User)
      (at : Location)
      → is_empty at.pathname ≡ false
      → let out = refresh_finish (fulfilled none) a in
        let login : Location = record { pathname = "/login"; from = some at.pathname } in
        let (form', a', at') = login_finish (fulfilled user) form out login in
        let (form'', a'', at'') = login_finish (rejected refused) form out login in
        (refresh_finish (rejected errors) a ≡ out)
        × (require_auth out at ≡ navigate login)
        × (at'.pathname ≡ at.pathname)
        × (require_auth a' at' ≡ children)
        × (at'' ≡ login)
        × (require_auth a'' at ≡ navigate login)
  unfolding refresh_finish require_auth login_finish destination
  login_finish-require_auth user errors refused form a at h =
      (refl, refl, rw h refl, refl, refl, refl)
