-- ===== src/Flcode/Sessions/Laws.antt =====
-- Sessions among the events of all clients.
use jtfp_cloudrun.Base.{
  ℕ, ◌+◌, ◌≤◌, String, ◌≡◌, ◌≢◌, refl, ◌∙◌, false, Option, none, some, List, [], ◌∷◌, arith,
  if◌then◌else◌, str_eq, eq_iff, eq_refl, ltb, Bool-cases, inl, inr,
}
use jtfp_cloudrun.Flcode.{Sqlite}
use jtfp_cloudrun.Flcode.Sessions.{
  Sessions, expiry_of, set_session, delete_session, day, check_session, judged, passes, stops,
  Server, Route, refused, auth_middleware,
}

-- What happens to the sessions: a login that makes a token, a logout, a request with a token.
pub data Event : Type 0 where
  login : String → ℕ → Event
  logout : String → Event
  request : String → ℕ → Event

abbrev pub after : Event → Sessions → Sessions
after (login token now) s = set_session token (now + day) s
after (logout token) s = delete_session token s
after (request token now) s = (check_session token now s).1

abbrev pub run_events : List Event → Sessions → Sessions
run_events [] s = s
run_events (e ∷ es) s = run_events es (after e s)

-- No event logs the token out, and its requests come while it has not expired: `d` is when it
-- expires, a day behind its last request or login.
abbrev pub IsKept : String → ℕ → List Event → Type 0
IsKept token d [] = Unit
IsKept token d (login t now ∷ es) = IsKept token (if str_eq t token then now + day else d) es
IsKept token d (logout t ∷ es) = (t ≢ token) × IsKept token d es
IsKept token d (request t now ∷ es) =
    (t ≡ token → now ≤ d) × IsKept token (if str_eq t token then now + day else d) es

-- When the token expires behind the events.
abbrev pub expiry_after : String → ℕ → List Event → ℕ
expiry_after token d [] = d
expiry_after token d (login t now ∷ es) =
    expiry_after token (if str_eq t token then now + day else d) es
expiry_after token d (logout t ∷ es) = expiry_after token d es
expiry_after token d (request t now ∷ es) =
    expiry_after token (if str_eq t token then now + day else d) es

expiry_of-set :
    (token t : String) (e : ℕ) (s : Sessions)
    → expiry_of token (set_session t e s) ≡ (if str_eq t token then some e else expiry_of token s)
unfolding expiry_of set_session
expiry_of-set token t e [] = refl
expiry_of-set token t e ((r, d) ∷ s) =
    ground (arith, eq_iff r t, eq_iff r token, eq_iff t token, expiry_of-set token t e s)

expiry_of-delete :
    (token t : String) (s : Sessions)
    → expiry_of token (delete_session t s) ≡ (if str_eq t token then none else expiry_of token s)
unfolding expiry_of delete_session
expiry_of-delete token t [] = ground arith
expiry_of-delete token t ((r, d) ∷ s) =
    ground (arith, eq_iff r t, eq_iff r token, eq_iff t token, expiry_of-delete token t s)

-- A request touches the session of its token only.
module _ (token t : String) (now : ℕ) (s : Sessions) (h : str_eq t token ≡ false) where
  expiry_of-judged : (o : Option ℕ) → expiry_of token (judged o t now s).1 ≡ expiry_of token s
  expiry_of-judged none = rw (expiry_of-delete, h) refl
  expiry_of-judged (some e) = elim (Bool-cases (ltb e now)) [
    | inl b ↦ rw (b, expiry_of-delete, h) refl
    | inr b ↦ rw (b, expiry_of-set, h) refl
  ]

  expiry_of-check_session : expiry_of token (check_session t now s).1 ≡ expiry_of token s
  unfolding check_session
  expiry_of-check_session = elim (Bool-cases (str_eq t "")) [
    | inl b ↦ rw b refl
    | inr b ↦ rw b (expiry_of-judged (expiry_of t s))
  ]

module _ (token : String) (named : token ≢ "") where
  check_session-passes :
      (now d : ℕ) (s : Sessions)
      → expiry_of token s ≡ some d
      → now ≤ d
      → check_session token now s ≡ (passes, set_session token (now + day) s)
  unfolding check_session
  check_session-passes now d s e h =
      let unnamed : str_eq token "" ≡ false = ground (arith, eq_iff token "", named) in
      let early : ltb d now ≡ false = ground arith in rw (unnamed, e, early) refl

  expiry_of-request :
      (t : String) (now d : ℕ) (s : Sessions)
      → expiry_of token s ≡ some d
      → (t ≡ token → now ≤ d)
      → expiry_of token (check_session t now s).1 ≡ some (if str_eq t token then now + day else d)
  expiry_of-request t now d s e h = elim (Bool-cases (str_eq t token)) [
    | inl b ↦ rw (b, (eq_iff t token).0 b) (own (h ((eq_iff t token).0 b)))
    | inr b ↦ rw b (expiry_of-check_session token t now s b ∙ e)
  ]
    where
      own : now ≤ d → expiry_of token (check_session token now s).1 ≡ some (now + day)
      own l = rw (check_session-passes now d s e l, expiry_of-set, eq_refl token) refl

  expiry_of-run_events :
      (es : List Event) (d : ℕ) (s : Sessions)
      → expiry_of token s ≡ some d
      → IsKept token d es
      → expiry_of token (run_events es s) ≡ some (expiry_after token d es)
  expiry_of-run_events [] d s e h = e
  expiry_of-run_events (login t now ∷ es) d s e h =
      expiry_of-run_events es (if str_eq t token then now + day else d) _
        (expiry_of-set token t (now + day) s ∙ ground (arith, e)) h
  expiry_of-run_events (logout t ∷ es) d s e h =
      expiry_of-run_events es d _ (expiry_of-delete token t s ∙ ground (arith, eq_iff t token, h.0))
        h.1
  expiry_of-run_events (request t now ∷ es) d s e h =
      expiry_of-run_events es (if str_eq t token then now + day else d) _
        (expiry_of-request t now d s e h.0) h.1

  -- A token that is used at least once a day stays valid, whoever else logs in, logs out or sends
  -- requests in between: the next request that comes before it expires reaches its handler, and
  -- renews it for a day.
  pub auth_middleware-kept :
      (q : Sqlite) (d now : ℕ) (es : List Event) (s : Sessions) (handler : Route q) (db : q.Db)
      → expiry_of token s ≡ some d
      → IsKept token d es
      → now ≤ expiry_after token d es
      → auth_middleware q token now handler (record { sessions = run_events es s; db = db })
        ≡ handler (record { sessions = set_session token (now + day) (run_events es s); db = db })
  unfolding auth_middleware
  auth_middleware-kept q d now es s handler db e h l =
      rw (check_session-passes now _ (run_events es s) (expiry_of-run_events es d s e h) l) refl

-- Where no event logs in with the token
abbrev pub NoLogin : String → List Event → Type 0
NoLogin token [] = Unit
NoLogin token (login t now ∷ es) = (t ≢ token) × NoLogin token es
NoLogin token (logout t ∷ es) = NoLogin token es
NoLogin token (request t now ∷ es) = NoLogin token es

module _ (token : String) where
  check_session-unknown :
      (now : ℕ) (s : Sessions)
      → expiry_of token s ≡ none
      → ((message : String) × ((check_session token now s).0 ≡ stops message))
        × (expiry_of token (check_session token now s).1 ≡ none)
  unfolding check_session
  check_session-unknown now s e = elim (Bool-cases (str_eq token "")) [
    | inl b ↦ rw b (("请先登录", refl), e)
    | inr b ↦ rw (b, e) (("登录已过期，请重新登录", refl), rw (expiry_of-delete, e) (ground arith))
  ]

  expiry_of-run_events_unknown :
      (es : List Event) (s : Sessions)
      → expiry_of token s ≡ none
      → NoLogin token es
      → expiry_of token (run_events es s) ≡ none
  expiry_of-run_events_unknown [] s e h = e
  expiry_of-run_events_unknown (login t now ∷ es) s e h =
      expiry_of-run_events_unknown es _
        (expiry_of-set token t (now + day) s ∙ ground (arith, eq_iff t token, h.0)) h.1
  expiry_of-run_events_unknown (logout t ∷ es) s e h =
      expiry_of-run_events_unknown es _ (expiry_of-delete token t s ∙ ground arith) h
  expiry_of-run_events_unknown (request t now ∷ es) s e h =
      expiry_of-run_events_unknown es _ (step t now) h
    where
      step : (t : String) (now : ℕ) → expiry_of token (check_session t now s).1 ≡ none
      step t now = elim (Bool-cases (str_eq t token)) [
        | inl b ↦ rw ((eq_iff t token).0 b) (check_session-unknown now s e).1
        | inr b ↦ expiry_of-check_session token t now s b ∙ e
      ]

  -- A token that was logged out reaches no handler any more, whatever others do in between, until a
  -- login makes it anew: the answer is 401, and the database stays as it is.
  pub auth_middleware-logged_out :
      (q : Sqlite) (now : ℕ) (es : List Event) (s : Sessions) (handler : Route q) (db : q.Db)
      → NoLogin token es
      → let server : Server q = record {
        sessions = run_events es (delete_session token s);
        db = db;
      } in
        (message : String) × ((auth_middleware q token now handler server).0 ≡ refused message)
        × ((auth_middleware q token now handler server).1.db ≡ db)
  unfolding auth_middleware
  auth_middleware-logged_out q now es s handler db h =
      let gone =
        expiry_of-run_events_unknown es (delete_session token s)
          (expiry_of-delete token token s ∙ ground (arith, eq_refl token)) h in
      let (message, stop) =
        (check_session-unknown now (run_events es (delete_session token s)) gone).0 in
      (message, rw stop refl, rw stop refl)
