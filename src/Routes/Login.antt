-- ===== src/Routes/Login.antt =====
-- src/routes/api_v1/auth_mini.ts, src/routes/api_v1/auth.ts and src/services/wechat_mini.ts: logins
-- with WeChat. Its answers, the encoding of addresses and the configuration are arguments.
pub mod Laws
use Prim.Native.String.{◌++◌ as str_append}
use jtfp_cloudrun.Base.{
  ℕ, ◌*◌, ◌==◌, String, Bool, not, ◌&&◌, ◌||◌, Option, none, some, List, [], ◌∷◌, ◌++◌,
  if◌then◌else◌, str_eq,
}
use jtfp_cloudrun.Base.Int.{ℤ, pos, negsuc, ltb_ℤ}
use jtfp_cloudrun.Js.{Value, undefined, null, int, str, strict_eq, truthy, to_text}
use jtfp_cloudrun.Js.Text.{includes, print_ℤ}
use jtfp_cloudrun.Js.Objects.{Row, get}
use jtfp_cloudrun.Store.State.{Process}
use jtfp_cloudrun.Store.Transaction.{Outcome, returns, throws}
use jtfp_cloudrun.Http.{
  Body, Reply, sent, next_error, zod_error, other_error, Parsed, parsed, rejected, Handler, json,
  status_json, code_message,
}
use jtfp_cloudrun.Repositories.Users.{Login, find_or_create_user, find_or_create_user_by_identity}
use jtfp_cloudrun.Utils.Jwt.{Crypto, sign_jwt}

-- The configuration of WeChat: the mini-program's and the official account's application and secret.
pub record Wechat : Type 0 where
  pub mini_app_id : String
  pub mini_app_secret : String
  pub app_id : String
  pub mp_secret : String

-- encodeURIComponent, and the data that axios.get gives for an address, or how it fails
pub record Web : Type 0 where
  pub encode : String → String
  pub fetch : String → Outcome Row

-- The text of the parts, one behind the other.
abbrev pub join : List String → String
join [] = ""
join (p ∷ ps) = str_append p (join ps)

-- parts.join('; ')
abbrev pub join_cookie : List String → String
join_cookie [] = ""
join_cookie (p ∷ []) = p
join_cookie (p ∷ q ∷ ps) = str_append p (str_append "; " (join_cookie (q ∷ ps)))

-- A week, in seconds.
abbrev pub week : ℕ
week = 7 * 24 * 3600

module _ (w : Web) (config : Wechat) where
  abbrev checked_session : Outcome Row → Outcome Row
  checked_session (throws e) = throws e
  checked_session (returns answer) =
      if truthy (get "errcode" answer) && not (strict_eq (get "errcode" answer) (int 0))
      then throws (
          join (
            "code2session failed: "
            ∷ to_text (get "errcode" answer)
            ∷ " "
            ∷ to_text (get "errmsg" answer)
            ∷ []))
      else returns answer

  -- code2session
  unfoldable pub code2session : String → Outcome Row
  code2session code =
      if str_eq config.mini_app_id "" || str_eq config.mini_app_secret ""
      then throws "WECHAT_MINI_APPID or WECHAT_MINI_SECRET not configured"
      else checked_session (
          w.fetch (
            join (
              "https://api.weixin.qq.com/sns/jscode2session?appid="
              ∷ w.encode config.mini_app_id
              ∷ "&secret="
              ∷ w.encode config.mini_app_secret
              ∷ "&js_code="
              ∷ w.encode code
              ∷ "&grant_type=authorization_code"
              ∷ [])))

abbrev pub mini_login : Row → Login
mini_login session = record {
  provider = str "wechat_mini";
  openid = get "openid" session;
  unionid = get "unionid" session;
  session_key = get "session_key" session;
  nickname = undefined;
  avatar_url = undefined;
}

abbrev pub mini_payload : Row → Value → Row
mini_payload user openid =
    ("sub", str (to_text (get "id" user)))
    ∷ ("openid", openid)
    ∷ ("provider", str "wechat_mini")
    ∷ []

-- The handler's catch: business errors and configuration errors have answers of their own.
abbrev pub login_error : String → Reply
login_error message =
    if includes message "code2session failed"
    then sent (status_json 400 (code_message "WECHAT_LOGIN_FAILED" message))
    else if includes message "not configured"
    then sent (status_json 500 (code_message "MINI_NOT_CONFIGURED" "小程序未配置"))
    else next_error (other_error message)

abbrev pub token_and_user : String → Row → Body
token_and_user token user = record {
  fields = ("token", str token) ∷ [];
  objects =
      (
        "user",
        ("id", get "id" user)
            ∷ ("nickname", get "nickname" user)
            ∷ ("avatar_url", get "avatar_url" user)
            ∷ ("phone", get "phone" user)
            ∷ [],
      )
      ∷ [];
  lists = [];
}

module _ (c : Crypto) (secret : String) (clock : ℕ) where
  -- signJwt({ sub: String(user.id), openid, provider: 'wechat_mini' }, 7 * 24 * 3600)
  unfoldable pub login_token : Row → Value → String
  login_token user openid = sign_jwt c secret (mini_payload user openid) clock week

  abbrev login_reply : Outcome Row → Value → Reply
  login_reply (throws e) openid = login_error e
  login_reply (returns user) openid = sent (json (token_and_user (login_token user openid) user))

  abbrev login_session : Outcome Row → String → Handler
  login_session (throws e) now s = (login_error e, s)
  login_session (returns session) now s =
      let (user, s1) = find_or_create_user_by_identity (mini_login session) now s in
      (login_reply user (get "openid" session), s1)

  -- POST /login, on what LoginReq.parse gives
  unfoldable pub post_login : Web → Wechat → Parsed → String → Handler
  post_login w config (rejected issue) now s = (next_error (zod_error issue), s)
  post_login w config (parsed body) now s =
      login_session (code2session w config (to_text (get "code" body))) now s

-- What the browser gets: a text, or a redirection with the cookies set before it.
pub data CallbackReply : Type 0 where
  text : ℕ → String → CallbackReply
  redirect : List String → String → CallbackReply

-- setCookie: the header's text. `environment` is the configuration's.
unfoldable pub set_cookie : (String → String) → String → String → String → ℤ → String
set_cookie encode environment name value max_age = join_cookie (
    (join (name ∷ "=" ∷ encode value ∷ []) ∷ "Path=/" ∷ "HttpOnly" ∷ "SameSite=Lax" ∷ [])
    ++ ((if str_eq environment "development" then [] else "Secure" ∷ [])
        ++ (if ltb_ℤ (pos 0) max_age then join ("Max-Age=" ∷ print_ℤ max_age ∷ []) ∷ [] else [])))

-- GET /wechat/oauth-start: `target` is the query's redirect, if it has one.
unfoldable pub get_oauth_start :
    (String → String) → String → String → Wechat → Value → CallbackReply
get_oauth_start encode environment base_url config target =
    let back = encode (join (base_url ∷ "/api/v1/auth/wechat/oauth-callback" ∷ [])) in
    redirect
      (set_cookie encode environment "oauth_redirect"
          (if truthy target then to_text target else "/") (pos 600)
        ∷ [])
      (join (
        "https://open.weixin.qq.com/connect/oauth2/authorize?appid="
        ∷ encode config.app_id
        ∷ "&redirect_uri="
        ∷ back
        ∷ "&response_type=code&scope=snsapi_base#wechat_redirect"
        ∷ []))

abbrev pub account_login : Row → Login
account_login answer = record {
  provider = undefined;
  openid = get "openid" answer;
  unionid = get "unionid" answer;
  session_key = undefined;
  nickname = undefined;
  avatar_url = undefined;
}

module _ (c : Crypto) (secret : String) (clock : ℕ) (w : Web) (environment : String) where
  -- `known` is the decoded cookie named oauth_redirect.
  abbrev signed_in : Row → Value → Option String → CallbackReply
  signed_in user openid known =
      let jwt =
        sign_jwt c secret (("sub", str (to_text (get "id" user))) ∷ ("openid", openid) ∷ []) clock
          week in
      redirect
        (set_cookie w.encode environment "jwt" jwt (pos week)
          ∷ set_cookie w.encode environment "oauth_redirect" "" (negsuc 0)
          ∷ [])
        (elim known [ none ↦ "/" | some path ↦ if str_eq path "" then "/" else path ])

  abbrev callback_answer : Outcome Row → Option String → String → Process → CallbackReply × Process
  callback_answer (throws e) known now s = (text 500 "oauth error", s)
  callback_answer (returns answer) known now s =
      if not (truthy (get "openid" answer))
      then (text 400 "oauth failed", s)
      else (let (user, s1) = find_or_create_user (account_login answer) now s in
          (signed_in user (get "openid" answer) known, s1))

  -- GET /wechat/oauth-callback
  unfoldable pub get_oauth_callback :
      Wechat → String → Option String → String → Process → CallbackReply × Process
  get_oauth_callback config code known now s =
      if str_eq code ""
      then (text 400 "missing code", s)
      else callback_answer
          (w.fetch (
            join (
              "https://api.weixin.qq.com/sns/oauth2/access_token?appid="
              ∷ w.encode config.app_id
              ∷ "&secret="
              ∷ w.encode config.mp_secret
              ∷ "&code="
              ∷ w.encode code
              ∷ "&grant_type=authorization_code"
              ∷ [])))
          known now s
