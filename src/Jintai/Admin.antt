-- ===== src/Jintai/Admin.antt =====
-- The pages of the administrators of properties, jintai-property/admin/src: the token's store
-- (stores/auth.ts), the requests that send it and drop it on a 401 (utils/request.ts), and the
-- guard of the router (router/index.ts), which runs again on what it redirects to.
pub mod Laws
use Prim.Native.String.{◌++◌ as str_append}
use jtfp_cloudrun.Base.{
  ℕ, zero, suc, ◌==◌, String, Bool, true, false, not, ◌&&◌, Option, none, some, if◌then◌else◌,
  str_eq,
}
use jtfp_cloudrun.Js.Text.{codes}
use jtfp_cloudrun.Js.{str, or_else, to_text}
use jtfp_cloudrun.Js.Objects.{Row, get}
use jtfp_cloudrun.Miniapp.Url.{starts}

-- The store, and the browser's storage, where a missing key reads as the empty text.
pub record Local : Type 0 where
  pub token : String
  pub username : String

pub record Auth : Type 0 where
  pub token : String
  pub username : String
  pub local : Local

-- useAuthStore, when the page loads
unfoldable pub open_store : Local → Auth
open_store local = record { token = local.token; username = local.username; local = local }

unfoldable pub set_token : String → String → Auth → Auth
set_token token user s = record {
  token = token;
  username = user;
  local = record { token = token; username = user };
}

unfoldable pub clear_token : Auth → Auth
clear_token s = record { token = ""; username = ""; local = record { token = ""; username = "" } }

-- The header that the request interceptor sets
unfoldable pub authorization : Auth → Option String
authorization s = if str_eq s.token "" then none else some (str_append "Bearer " s.token)

-- What the response interceptor does: it gives the data, or shows a message and rejects, after it
-- has left for the login, at an address, where the token has expired.
pub data Handling : Type 0 where
  gives : Row → Handling
  rejects : String → Handling
  leaves_for : String → Handling

-- What comes back: a response, an error with a response, or an error without one.
pub data Incoming : Type 0 where
  success : Row → Incoming
  failure : ℕ → Row → Incoming
  unreachable : Incoming

abbrev pub base_path : String → String
base_path pathname = if starts (codes "/admin") (codes pathname) then "/admin" else "/JTFP/admin"

unfoldable pub on_response : String → Incoming → Auth → Handling × Auth
on_response pathname (success body) s = (gives body, s)
on_response pathname (failure status body) s =
    if status == 401
    then (leaves_for (str_append (base_path pathname) "/login"), clear_token s)
    else (rejects (to_text (or_else (get "error" body) (str "请求失败"))), s)
on_response pathname unreachable s = (rejects "网络错误，请检查连接", s)

-- The router: where a path redirects to, and whether it wants a login. A path without a route has no
-- meta, and wants one.
abbrev pub resolved : String → String
resolved path = if str_eq path "/" then "/properties" else path

abbrev pub requires_auth : String → Bool
requires_auth path = not (str_eq path "/login")

-- beforeEach: where it redirects to, if it does
unfoldable pub guard : String → Auth → Option String
guard path s =
    if requires_auth path && str_eq s.token ""
    then some "/login"
    else if str_eq path "/login" && not (str_eq s.token "")
    then some "/"
    else none

-- A navigation: redirects are followed, on fuel.
abbrev pub follow : (String → Option String) → String → Option String → Option String
follow onward path none = some path
follow onward path (some target) = onward target

unfoldable pub navigate : ℕ → String → Auth → Option String
navigate zero path s = none
navigate (suc n) path s =
    follow (λ target. navigate n target s) (resolved path) (guard (resolved path) s)
