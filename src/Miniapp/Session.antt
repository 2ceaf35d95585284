-- ===== src/Miniapp/Session.antt =====
-- The login of the mini-program: its global data and the phone's storage (miniapp/app.js), the login
-- by a code of WeChat (miniapp/services/auth.js), and requests, which send the token and give up the
-- login on a 401 (miniapp/utils/request.js). Requests and logins under way may end in any order.
pub mod Laws
use Prim.Native.String.{◌++◌ as str_append}
use jtfp_cloudrun.Base.{
  ℕ, ◌==◌, leb, String, Bool, true, false, ◌&&◌, Option, none, some, List, [], ◌∷◌, ◌++◌,
  if◌then◌else◌, str_eq,
}
use jtfp_cloudrun.Js.{Value, null, str, truthy, or_else, to_text}
use jtfp_cloudrun.Js.Objects.{Row, get}
use jtfp_cloudrun.Miniapp.OrderList.{call_at, without}

-- globalData
pub record Session : Type 0 where
  pub token : Value
  pub user : Value
  pub is_logged_in : Bool

-- The storage: a key that is missing reads as the empty text.
pub record Phone : Type 0 where
  pub token : Value
  pub user : Value

-- A login that awaits WeChat's code, one that awaits the server, and a request with its header.
pub data Call : Type 0 where
  awaits_code : Call
  posts_code : String → Call
  asks : Option String → Call

pub record App : Type 0 where
  pub session : Session
  pub phone : Phone
  pub calls : List Call

abbrev pub signed_out : Session
signed_out = record { token = null; user = null; is_logged_in = false }

-- onLaunch
abbrev pub restored : Phone → Session
restored phone =
    if truthy phone.token && truthy phone.user
    then record { token = phone.token; user = phone.user; is_logged_in = true }
    else signed_out

unfoldable pub on_launch : Phone → App
on_launch phone = record { session = restored phone; phone = phone; calls = [] }

-- silentLogin, on what the login resolves to
unfoldable pub keep_login : Row → App → App
keep_login r app = record app {
  session = record { token = get "token" r; user = get "user" r; is_logged_in = true };
  phone = record { token = get "token" r; user = get "user" r };
}

unfoldable pub logout : App → App
logout app = record app { session = signed_out; phone = record { token = str ""; user = str "" } }

-- ensureLogin: it starts a login where there is none.
unfoldable pub ensure_login : App → App
ensure_login app =
    if app.session.is_logged_in && truthy app.session.token
    then app
    else record app { calls = app.calls ++ awaits_code ∷ [] }

-- The header of a request
abbrev pub authorization : Bool → Session → Option String
authorization need_auth s =
    if need_auth && truthy s.token then some (str_append "Bearer " (to_text s.token)) else none

-- What a request comes to: it resolves to the body, or rejects with a code and a message.
pub data Outcome : Type 0 where
  resolves : Row → Outcome
  rejects : String → String → Outcome

abbrev pub is_success : ℕ → Bool
is_success status = leb 200 status && leb status 299

unfoldable pub settles : ℕ → Row → Outcome
settles status body =
    if is_success status
    then resolves body
    else if status == 401
    then rejects "UNAUTHORIZED" "登录已过期，请重新登录"
    else rejects (to_text (or_else (get "code" body) (str "REQUEST_ERROR")))
        (to_text (or_else (get "message" body) (str "请求失败")))

-- What it does to the login: a 401 ends it.
unfoldable pub request_done : ℕ → App → App
request_done status app = if status == 401 then logout app else app

abbrev pub resolved : Outcome → App → App
resolved (resolves body) app = keep_login body app
resolved (rejects error message) app = app

abbrev pub drop_call : ℕ → App → App
drop_call i app = record app { calls = without i app.calls }

-- wx.login succeeds: an empty code is a failure.
abbrev pub on_code : Option Call → ℕ → String → App → App
on_code (some awaits_code) i given app =
    let dropped = drop_call i app in
    if str_eq given ""
    then dropped
    else record dropped { calls = dropped.calls ++ posts_code given ∷ [] }
on_code call i given app = app

-- The server answers a login, and another request.
abbrev pub on_login_answer : Option Call → ℕ → ℕ → Row → App → App
on_login_answer (some (posts_code given)) i status body app =
    resolved (settles status body) (request_done status (drop_call i app))
on_login_answer call i status body app = app

abbrev pub on_answer : Option Call → ℕ → ℕ → App → App
on_answer (some (asks header)) i status app = request_done status (drop_call i app)
on_answer call i status app = app

pub data Event : Type 0 where
  relaunches : Event
  ensures : Event
  logs_out : Event
  sends : Bool → Event
  gets_code : ℕ → String → Event
  login_answers : ℕ → ℕ → Row → Event
  answers : ℕ → ℕ → Event
  breaks : ℕ → Event

unfoldable pub step : Event → App → App
step relaunches app = on_launch app.phone
step ensures app = ensure_login app
step logs_out app = logout app
step (sends need_auth) app = record app {
  calls = app.calls ++ asks (authorization need_auth app.session) ∷ [];
}
step (gets_code i given) app = on_code (call_at i app.calls) i given app
step (login_answers i status body) app = on_login_answer (call_at i app.calls) i status body app
step (answers i status) app = on_answer (call_at i app.calls) i status app
step (breaks i) app = drop_call i app

abbrev pub run : List Event → App → App
run [] app = app
run (e ∷ es) app = run es (step e app)
