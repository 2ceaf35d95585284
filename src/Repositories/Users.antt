-- ===== src/Repositories/Users.antt =====
-- src/storage/repositories/users.ts
pub mod Logins
use jtfp_cloudrun.Base.{String, Bool, ◌&&◌, not, Option, none, some, [], ◌∷◌, ◌++◌, if◌then◌else◌}
use jtfp_cloudrun.Js.{Value, null, str, strict_eq, truthy, or_else}
use jtfp_cloudrun.Js.Objects.{Row, get, spread}
use jtfp_cloudrun.Store.Table.{users, user_identities}
use jtfp_cloudrun.Store.State.{Process, flush_now}
use jtfp_cloudrun.Store.Rows
use jtfp_cloudrun.Store.Rows.{insert, find_one}
use jtfp_cloudrun.Store.Transaction.{Outcome, returns, throws}

-- The parameters of both functions; `provider` and `session_key` are for identities.
pub record Login : Type 0 where
  pub provider : Value
  pub openid : Value
  pub unionid : Value
  pub session_key : Value
  pub nickname : Value
  pub avatar_url : Value

-- if (given && given !== user[key]) updates[key] = given
abbrev if_changed : String → Value → Row → Row
if_changed key given user =
    if truthy given && not (strict_eq given (get key user)) then (key, given) ∷ [] else []

unfoldable pub user_updates : Login → Row → Row
user_updates p user =
    if_changed "unionid" p.unionid user
    ++ (if_changed "nickname" p.nickname user ++ if_changed "avatar_url" p.avatar_url user)

abbrev pub new_user : Login → Row
new_user p =
    ("openid", p.openid)
    ∷ ("unionid", or_else p.unionid null)
    ∷ ("nickname", or_else p.nickname null)
    ∷ ("avatar_url", or_else p.avatar_url null)
    ∷ ("phone", null)
    ∷ []

-- if (Object.keys(updates).length > 0) { update; user = { ...user, ...updates } }
abbrev apply_updates : Row → Row → String → Process → Row × Process
apply_updates user [] now s = (user, s)
apply_updates user (u ∷ us) now s =
    (spread user (u ∷ us), (Rows.update users (get "id" user) (u ∷ us) now s).1)

abbrev update_or_create : Option Row → Login → String → Process → Row × Process
update_or_create none p now s = insert users (new_user p) now s
update_or_create (some user) p now s = apply_updates user (user_updates p user) now s

-- (r) => r.openid === openid
abbrev pub has_openid : Value → Row → Bool
has_openid openid r = strict_eq (get "openid" r) openid

-- findOrCreateUser
unfoldable pub find_or_create_user : Login → String → Process → Row × Process
find_or_create_user p now s =
    let (user, s1) = find_one users (has_openid p.openid) now s in update_or_create user p now s1

-- (r) => r.provider === provider && r.openid === openid
abbrev pub is_identity : Login → Row → Bool
is_identity p r = strict_eq (get "provider" r) p.provider && strict_eq (get "openid" r) p.openid

-- Step 1: the user of a known identity, with its session key renewed.
abbrev user_of_identity : Option Row → Login → String → Process → Option Row × Process
user_of_identity none p now s = (none, s)
user_of_identity (some identity) p now s =
    let s1 =
      if truthy p.session_key
      then (Rows.update user_identities (get "id" identity) (("session_key", p.session_key) ∷ [])
          now s).1
      else s in
    Rows.find_by_id users (get "user_id" identity) now s1

abbrev user_id_of : Option Row → Value
user_id_of none = null
user_id_of (some identity) = get "user_id" identity

-- Step 2: `existingUserId`, by the union identifier.
unfoldable pub union_user_id : Login → String → Process → Value × Process
union_user_id p now s =
    if truthy p.unionid
    then (let (identity, s1) =
          find_one user_identities (λ r. strict_eq (get "unionid" r) p.unionid) now s in
        (user_id_of identity, s1))
    else (null, s)

-- Step 3: a new user if there is none.
unfoldable pub ensure_user_id : Value → Login → String → Process → Value × Process
ensure_user_id id p now s =
    if truthy id
    then (id, s)
    else let (user, s1) = insert users (new_user p) now s in (get "id" user, s1)

abbrev pub new_identity : Value → Login → Row
new_identity id p =
    ("user_id", id)
    ∷ ("provider", p.provider)
    ∷ ("openid", p.openid)
    ∷ ("unionid", or_else p.unionid null)
    ∷ ("session_key", or_else p.session_key null)
    ∷ []

abbrev save_found : Option Row → Value → Login → String → Process → Process
save_found none id p now s = (insert user_identities (new_identity id p) now s).1
save_found (some identity) id p now s =
    (Rows.update user_identities (get "id" identity)
      (("session_key", or_else p.session_key (get "session_key" identity))
        ∷ ("unionid", or_else p.unionid (get "unionid" identity))
        ∷ [])
      now s).1

-- Step 4: the identity is inserted, or updated where it is known.
unfoldable pub save_identity : Value → Login → String → Process → Process
save_identity id p now s =
    let (identity, s1) = find_one user_identities (is_identity p) now s in
    save_found identity id p now s1

abbrev user_or_error : Option Row → Outcome Row
user_or_error none = throws "Failed to create user"
user_or_error (some user) = returns user

-- Steps 2 to 4 and the end of the function.
unfoldable pub link_identity : Login → String → Process → Outcome Row × Process
link_identity p now s =
    let (known, s1) = union_user_id p now s in
    let (id, s2) = ensure_user_id known p now s1 in
    let s3 = flush_now now (save_identity id p now s2) in
    let (user, s4) = Rows.find_by_id users id now s3 in (user_or_error user, s4)

abbrev known_or_linked : Option Row → Login → String → Process → Outcome Row × Process
known_or_linked none p now s = link_identity p now s
known_or_linked (some user) p now s = (returns user, s)

-- findOrCreateUserByIdentity
unfoldable pub find_or_create_user_by_identity : Login → String → Process → Outcome Row × Process
find_or_create_user_by_identity p now s =
    let (identity, s1) = find_one user_identities (is_identity p) now s in
    let (user, s2) = user_of_identity identity p now s1 in known_or_linked user p now s2

-- getUserById
unfoldable pub get_user_by_id : Value → String → Process → Option Row × Process
get_user_by_id id = Rows.find_by_id users id

-- getUserByOpenid
unfoldable pub get_user_by_openid : Value → String → Process → Option Row × Process
get_user_by_openid openid = find_one users (has_openid openid)

abbrev mini_identity_of : Option Row → Option (Value × Value)
mini_identity_of none = none
mini_identity_of (some r) = some (get "openid" r, or_else (get "session_key" r) null)

-- getMiniIdentity
unfoldable pub get_mini_identity : Value → String → Process → Option (Value × Value) × Process
get_mini_identity id now s =
    let (identity, s1) =
      find_one user_identities
        (λ r. strict_eq (get "user_id" r) id && strict_eq (get "provider" r) (str "wechat_mini"))
        now s in
    (mini_identity_of identity, s1)

-- updateUser
unfoldable pub update_user : Value → Row → String → Process → Bool × Process
update_user id fields now s = Rows.update users id fields now s
