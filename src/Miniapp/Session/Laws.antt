-- ===== src/Miniapp/Session/Laws.antt =====
-- What a restart of the mini-program finds.
use jtfp_cloudrun.Base.{
  ℕ, ◌==◌, String, ◌≡◌, refl, Bool, true, false, ◌&&◌, Option, none, some, List, [], ◌∷◌, ◌++◌, All,
  if◌then◌else◌, str_eq,
}
use jtfp_cloudrun.Js.{truthy}
use jtfp_cloudrun.Js.Objects.{Row, get}
use jtfp_cloudrun.Miniapp.Session.{
  Phone, Call, awaits_code, posts_code, asks, App, restored, on_launch, keep_login, logout,
  ensure_login, is_success, Outcome, resolves, rejects, settles, request_done, resolved, drop_call,
  on_code, on_login_answer, on_answer, Event, relaunches, ensures, logs_out, sends, gets_code,
  login_answers, answers, breaks, step, run,
}

-- What the server answers to a login, where it succeeds, has a token and a user.
abbrev HasSession : Row → Type 0
HasSession body = (truthy (get "token" body) && truthy (get "user" body)) ≡ true

abbrev pub IsProper : Event → Type 0
IsProper (login_answers i status body) = is_success status ≡ true → HasSession body
IsProper relaunches = true ≡ true
IsProper ensures = true ≡ true
IsProper logs_out = true ≡ true
IsProper (sends b) = true ≡ true
IsProper (gets_code i c) = true ≡ true
IsProper (answers i s) = true ≡ true
IsProper (breaks i) = true ≡ true

abbrev IsKept : App → Type 0
IsKept app = restored app.phone ≡ app.session

if-IsKept : (b : Bool) (u v : App) → IsKept u → IsKept v → IsKept (if b then u else v)
if-IsKept true u v p q = p
if-IsKept false u v p q = q

request_done-IsKept : (status : ℕ) (app : App) → IsKept app → IsKept (request_done status app)
unfolding request_done logout
request_done-IsKept status app h = if-IsKept (status == 401) (logout app) app refl h

keep_login-IsKept : (body : Row) (app : App) → HasSession body → IsKept (keep_login body app)
unfolding keep_login
keep_login-IsKept body app has = rw has refl

resolved-if :
    (b : Bool) (u w : Outcome) (app : App)
    → (b ≡ true → IsKept (resolved u app))
    → IsKept (resolved w app)
    → IsKept (resolved (if b then u else w) app)
resolved-if true u w app p q = p refl
resolved-if false u w app p q = q

resolved-IsKept :
    (status : ℕ) (body : Row) (app : App)
    → (is_success status ≡ true → HasSession body)
    → IsKept app
    → IsKept (resolved (settles status body) app)
unfolding settles
resolved-IsKept status body app proper h =
    resolved-if (is_success status) (resolves body) _ app
      (λ e. keep_login-IsKept body app (proper e))
      (resolved-if (status == 401) (rejects _ _) (rejects _ _) app (λ e. h) h)

on_code-IsKept :
    (c : Option Call) (i : ℕ) (given : String) (app : App)
    → IsKept app
    → IsKept (on_code c i given app)
on_code-IsKept none i given app h = h
on_code-IsKept (some (posts_code x)) i given app h = h
on_code-IsKept (some (asks x)) i given app h = h
on_code-IsKept (some awaits_code) i given app h =
    let dropped = drop_call i app in
    if-IsKept (str_eq given "") dropped
      (record dropped { calls = dropped.calls ++ posts_code given ∷ [] }) h h

on_login_answer-IsKept :
    (c : Option Call) (i status : ℕ) (body : Row) (app : App)
    → (is_success status ≡ true → HasSession body)
    → IsKept app
    → IsKept (on_login_answer c i status body app)
on_login_answer-IsKept none i status body app proper h = h
on_login_answer-IsKept (some awaits_code) i status body app proper h = h
on_login_answer-IsKept (some (asks x)) i status body app proper h = h
on_login_answer-IsKept (some (posts_code x)) i status body app proper h =
    resolved-IsKept status body _ proper (request_done-IsKept status (drop_call i app) h)

on_answer-IsKept :
    (c : Option Call) (i status : ℕ) (app : App) → IsKept app → IsKept (on_answer c i status app)
on_answer-IsKept none i status app h = h
on_answer-IsKept (some awaits_code) i status app h = h
on_answer-IsKept (some (posts_code x)) i status app h = h
on_answer-IsKept (some (asks x)) i status app h = request_done-IsKept status (drop_call i app) h

step-IsKept : (e : Event) (app : App) → IsProper e → IsKept app → IsKept (step e app)
unfolding step on_launch logout ensure_login
step-IsKept relaunches app p h = refl
step-IsKept ensures app p h =
    if-IsKept (app.session.is_logged_in && truthy app.session.token) app
      (record app { calls = app.calls ++ awaits_code ∷ [] }) h h
step-IsKept logs_out app p h = refl
step-IsKept (sends b) app p h = h
step-IsKept (gets_code i c) app p h = on_code-IsKept _ i c app h
step-IsKept (login_answers i s b) app p h = on_login_answer-IsKept _ i s b app p h
step-IsKept (answers i s) app p h = on_answer-IsKept _ i s app h
step-IsKept (breaks i) app p h = h

run-IsKept : (es : List Event) (app : App) → All IsProper es → IsKept app → IsKept (run es app)
run-IsKept [] app p h = h
run-IsKept (e ∷ es) app p h = run-IsKept es (step e app) p.1 (step-IsKept e app p.0 h)

-- Whatever happens after a launch, logins and requests that overlap and answers with 401 included,
-- where every successful login comes with a token and a user: a restart of the mini-program finds
-- the very login that it had, or none if it had none.
pub run-restored :
    (es : List Event) (phone : Phone)
    → All IsProper es
    → (on_launch (run es (on_launch phone)).phone).session ≡ (run es (on_launch phone)).session
unfolding on_launch
run-restored es phone proper = run-IsKept es (on_launch phone) proper refl
