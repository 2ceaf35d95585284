-- ===== src/Http/Guards.antt =====
-- src/middlewares/admin_auth.ts and user_auth.ts
pub mod Laws
use Prim.Native.String.{slice, len}
use text.Mathlib.Text.{starts_with}
use jtfp_cloudrun.Base.{String, not, ◌||◌, Option, none, some, if◌then◌else◌, str_eq}
use jtfp_cloudrun.Base.Int.{ℤ, pos, leb_ℤ}
use jtfp_cloudrun.Js.{to_number}
use jtfp_cloudrun.Js.Objects.{Row, get}
use jtfp_cloudrun.Http.{sent, Handler, status_json, code_message, error_only}

-- authHeader.startsWith('Bearer ') ? authHeader.slice(7) : ''
unfoldable pub bearer_token : String → String
bearer_token header = if starts_with header "Bearer " then slice header 7 (len header) else ""

-- requireAdminToken, before a handler: `admin_token` is the configuration's, empty if unset.
unfoldable pub require_admin_token : String → String → Handler → Handler
require_admin_token admin_token header handler s =
    if str_eq admin_token "" || not (str_eq (bearer_token header) admin_token)
    then (sent (status_json 401 (error_only "Unauthorized")), s)
    else handler s

abbrev positive : Option ℤ → Option ℤ
positive none = none
positive (some n) = if leb_ℤ n (pos 0) then none else some n

-- The user that `requireUserAuth` puts on the request: Number(payload.sub), above 0.
unfoldable pub user_id_of : Option Row → Option ℤ
user_id_of none = none
user_id_of (some payload) = positive (to_number (get "sub" payload))

abbrev if_user : Option ℤ → (ℤ → Handler) → Handler
if_user none handler s =
    (sent (status_json 401 (code_message "NEED_WECHAT_OAUTH" "请先在微信内完成登录授权")), s)
if_user (some id) handler s = handler id s

-- requireUserAuth, before a handler: `payload` is what extractJwtFromReq found.
unfoldable pub require_user_auth : Option Row → (ℤ → Handler) → Handler
require_user_auth payload handler s = if_user (user_id_of payload) handler s
