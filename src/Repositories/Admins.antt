-- ===== src/Repositories/Admins.antt =====
-- src/storage/repositories/admins.ts
use jtfp_cloudrun.Base.{String, Bool, not, Option, none, some, [], ◌∷◌, if◌then◌else◌}
use jtfp_cloudrun.Js.{Value, strict_eq}
use jtfp_cloudrun.Js.Objects.{Row, get}
use jtfp_cloudrun.Store.Table.{admins}
use jtfp_cloudrun.Store.State.{Process}
use jtfp_cloudrun.Store.Rows
use jtfp_cloudrun.Store.Rows.{insert, find_one}

-- findByUsername
unfoldable pub find_by_username : Value → String → Process → Option Row × Process
find_by_username username = find_one admins (λ r. strict_eq (get "username" r) username)

-- findByToken
unfoldable pub find_by_token : Value → String → Process → Option Row × Process
find_by_token token = find_one admins (λ r. strict_eq (get "token" r) token)

abbrev if_password : Value → Option Row → Option Row
if_password password none = none
if_password password (some admin) =
    if not (strict_eq (get "password" admin) password) then none else some admin

-- validateLogin
unfoldable pub validate_login : Value → Value → String → Process → Option Row × Process
validate_login username password now s =
    let (admin, s1) = find_by_username username now s in (if_password password admin, s1)

-- updateToken
unfoldable pub update_token : Value → Value → String → Process → Bool × Process
update_token id token now s = Rows.update admins id (("token", token) ∷ []) now s

-- create
unfoldable pub create : Row → String → Process → Row × Process
create fields now s = insert admins fields now s

-- updatePassword
unfoldable pub update_password : Value → Value → String → Process → Bool × Process
update_password id password now s = Rows.update admins id (("password", password) ∷ []) now s
