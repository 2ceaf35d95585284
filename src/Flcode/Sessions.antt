-- ===== src/Flcode/Sessions.antt =====
-- The sessions of FLcode/src/routes/admin.ts: a map from tokens to the time, in milliseconds, at
-- which they expire. The clock's reading and a new token are arguments.
pub mod Laws
use jtfp_cloudrun.Base.{
  ℕ, ◌+◌, ◌*◌, String, Bool, true, false, Option, none, some, List, [], ◌∷◌, if◌then◌else◌, str_eq,
  ltb, filter, not, find,
}
use jtfp_cloudrun.Base.Int.{pos}
use jtfp_cloudrun.Js.{Value, undefined, str, bool, text_of}
use jtfp_cloudrun.Http.{Response, json, status_json, fields_only, Parsed, parsed, rejected}
use jtfp_cloudrun.Flcode.{Sqlite}
use jtfp_cloudrun.Flcode.Config.{get_config, text_or}
use jtfp_cloudrun.Js.Objects.{Row, get}

abbrev pub Sessions : Type 0
Sessions = List (String × ℕ)

-- sessions.get(token)
unfoldable pub expiry_of : String → Sessions → Option ℕ
expiry_of token [] = none
expiry_of token ((t, e) ∷ rest) = if str_eq t token then some e else expiry_of token rest

-- sessions.set(token, { expireAt }), and session.expireAt = … on the session that is there
unfoldable pub set_session : String → ℕ → Sessions → Sessions
set_session token e [] = (token, e) ∷ []
set_session token e ((t, d) ∷ rest) =
    let others = set_session token e rest in
    if str_eq t token then (t, e) ∷ rest else (t, d) ∷ others

-- sessions.delete(token)
unfoldable pub delete_session : String → Sessions → Sessions
delete_session token s = filter (λ p. not (str_eq p.0 token)) s

-- 24 * 60 * 60 * 1000
abbrev pub day : ℕ
day = 24 * 60 * 60 * 1000

abbrev pub refused : String → Response
refused message = status_json 401 (("ok", bool false) ∷ ("message", str message) ∷ [])

abbrev first_message : Option (List String × String) → Value
first_message none = undefined
first_message (some issue) = str issue.1

-- res.status(400).json({ ok: false, message: parsed.error.errors[0]?.message })
abbrev pub issue_refused : Option (List String × String) → Response
issue_refused issue = status_json 400 (("ok", bool false) ∷ ("message", first_message issue) ∷ [])

-- What the middleware does with the session of a token, and whether it passes the request on.
pub data Verdict : Type 0 where
  passes : Verdict
  stops : String → Verdict

abbrev pub judged : Option ℕ → String → ℕ → Sessions → Verdict × Sessions
judged none token now s = (stops "登录已过期，请重新登录", delete_session token s)
judged (some e) token now s =
    if ltb e now
    then (stops "登录已过期，请重新登录", delete_session token s)
    else (passes, set_session token (now + day) s)

unfoldable pub check_session : String → ℕ → Sessions → Verdict × Sessions
check_session token now s =
    if str_eq token "" then (stops "请先登录", s) else judged (expiry_of token s) token now s

module _ (q : Sqlite) where
  pub record Server : Type 0 where
    pub sessions : Sessions
    pub db : q.Db

  abbrev pub Route : Type 0
  Route = Server → Response × Server

  abbrev next_or : Verdict → Route → Route
  next_or passes handler s = handler s
  next_or (stops message) handler s = (refused message, s)

  -- authMiddleware, before a handler; `token` is the header's, empty where there is none.
  unfoldable pub auth_middleware : String → ℕ → Route → Route
  auth_middleware token now handler s =
      let (verdict, sessions) = check_session token now s.sessions in
      next_or verdict handler (record s { sessions = sessions })

  abbrev login_with : String → String → ℕ → Route
  login_with password token now s =
      if not (str_eq password (text_or (get_config q "admin_password" s.db) "admin123"))
      then (refused "密码错误", s)
      else (
        json
            (fields_only (("ok", bool true) ∷ ("token", str token) ∷ ("message", str "登录成功") ∷ [])),
        record s { sessions = set_session token (now + day) s.sessions },
      )

  -- POST /login, with the token that generateToken makes
  unfoldable pub post_login : Parsed → String → ℕ → Route
  post_login (rejected issue) token now s = (issue_refused issue, s)
  post_login (parsed body) token now s = login_with (text_of (get "password" body)) token now s

  -- POST /logout
  unfoldable pub post_logout : String → Route
  post_logout token s =
      let sessions = if str_eq token "" then s.sessions else delete_session token s.sessions in
      (
        json (fields_only (("ok", bool true) ∷ ("message", str "已登出") ∷ [])),
        record s { sessions = sessions },
      )

  -- GET /verify
  unfoldable pub get_verify : String → ℕ → Route
  get_verify token now =
      auth_middleware token now
        (λ s. (json (fields_only (("ok", bool true) ∷ ("message", str "Token 有效") ∷ [])), s))
