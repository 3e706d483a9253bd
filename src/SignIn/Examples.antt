-- ===== src/SignIn/Examples.antt =====
-- The theorem on app/frontend/pages/Login.jsx at a visitor of the account page.
use roost_assured.Common.{ℕ, ◌≡◌, refl, none, some, number_key, string_key}
use roost_assured.Api.{fulfilled, rejected}
use roost_assured.SignIn.{
  new_auth, Location, navigate, children, require_auth, new_form, login_finish, refresh_finish,
}
use roost_assured.SignIn.Returns.{login_finish-require_auth}

abbrev account_page : Location
account_page = record { pathname = "/account"; from = none }

login_finish-require_auth_example :
    let out = refresh_finish (fulfilled none) (new_auth {User = ℕ}) in
    let login : Location = record { pathname = "/login"; from = some "/account" } in
    let (form', a', at') = login_finish (fulfilled 7) new_form out login in
    let (form'', a'', at'') = login_finish (rejected none) new_form out login in
    (refresh_finish (rejected none) (new_auth {User = ℕ}) ≡ out)
    × (require_auth out account_page ≡ navigate login)
    × (at'.pathname ≡ "/account")
    × (require_auth a' at' ≡ children)
    × (at'' ≡ login)
    × (require_auth a'' account_page ≡ navigate login)
login_finish-require_auth_example =
    login_finish-require_auth 7 none none new_form new_auth account_page refl
