-- ===== src/Utils/Jwt.antt =====
-- src/utils/jwt.ts. Base64, the HMAC and JSON are services of others: a record of operations.
pub mod Texts
pub mod Laws
use Prim.Native.Char.{Char, code}
use Prim.Native.String
use Prim.Native.String.{◌++◌ as str_append}
use jtfp_cloudrun.Base.{
  ℕ, ◌+◌, ◌==◌, String, Bool, not, ◌&&◌, ◌||◌, Option, none, some, List, [], ◌∷◌, if◌then◌else◌,
  str_eq,
}
use jtfp_cloudrun.Base.Int.{pos}
use jtfp_cloudrun.Js.{str, int, truthy, js_lt}
use jtfp_cloudrun.Js.Objects.{Row, get, spread}
use jtfp_cloudrun.Http.Guards.{bearer_token}

-- Buffer.from(s).toString('base64'), Buffer.from(t, 'base64').toString('utf8'), the HMAC-SHA256 of a
-- text under a secret as base64, and JSON of objects with scalar fields (`none` where it throws).
pub record Crypto : Type 0 where
  pub base64 : String → String
  pub unbase64 : String → String
  pub hmac : String → String → String
  pub json_text : Row → String
  pub json_parse : String → Option Row

-- s.replace(/c/g, by)
unfoldable pub replace_all : ℕ → String → String → String
replace_all c by String.[] = String.[]
replace_all c by (String.◌∷◌ x s) =
    let rest = replace_all c by s in if code x == c then str_append by rest else String.◌∷◌ x rest

abbrev longer : Char → List String → List String
longer x [] = String.◌∷◌ x String.[] ∷ []
longer x (p ∷ ps) = String.◌∷◌ x p ∷ ps

-- s.split(c)
unfoldable pub split : ℕ → String → List String
split c String.[] = String.[] ∷ []
split c (String.◌∷◌ x s) =
    let rest = split c s in if code x == c then String.[] ∷ rest else longer x rest

-- .replace(/=/g, '').replace(/\+/g, '-').replace(/\//g, '_')
unfoldable pub url_safe : String → String
url_safe t = replace_all b'/' "_" (replace_all b'+' "-" (replace_all b'=' "" t))

-- p.replace(/-/g, '+').replace(/_/g, '/')
unfoldable pub url_unsafe : String → String
url_unsafe p = replace_all b'_' "/" (replace_all b'-' "+" p)

abbrev pub with_dot : String → String → String
with_dot a b = str_append a (str_append "." b)

abbrev pub header : Row
header = ("alg", str "HS256") ∷ ("typ", str "JWT") ∷ []

module _ (c : Crypto) where
  -- base64url
  unfoldable pub base64url : String → String
  base64url input = url_safe (c.base64 input)

  -- The expected signature of a token's first two parts.
  unfoldable pub signature : String → String → String
  signature secret content = url_safe (c.hmac secret content)

  -- { iat: now, exp: now + expiresInSec, ...payload }
  unfoldable pub claims : Row → ℕ → ℕ → Row
  claims payload now expires_in_sec =
      spread (("iat", int now) ∷ ("exp", int (now + expires_in_sec)) ∷ []) payload

  -- signJwt, at `now` seconds
  unfoldable pub sign_jwt : String → Row → ℕ → ℕ → String
  sign_jwt secret payload now expires_in_sec =
      let body = claims payload now expires_in_sec in
      let content = with_dot (base64url (c.json_text header)) (base64url (c.json_text body)) in
      with_dot content (signature secret content)

  abbrev check_expiry : Option Row → ℕ → Option Row
  check_expiry none now = none
  check_expiry (some payload) now =
      if truthy (get "exp" payload) && js_lt (get "exp" payload) (int now)
      then none
      else some payload

  -- [h, p, s]: a part that is missing is undefined, and as false as an empty one; parts behind the
  -- third are dropped.
  abbrev check_parts : List String → String → ℕ → Option Row
  check_parts (h ∷ p ∷ s ∷ more) secret now =
      if str_eq h "" || str_eq p "" || str_eq s ""
      then none
      else if not (str_eq (signature secret (with_dot h p)) s)
      then none
      else check_expiry (c.json_parse (c.unbase64 (url_unsafe p))) now
  check_parts _ secret now = none

  -- verifyJwt, with `none` for { valid: false }
  unfoldable pub verify_jwt : String → String → ℕ → Option Row
  verify_jwt secret token now = check_parts (split b'.' token) secret now

  abbrev token_or : String → Option String → String
  token_or token none = token
  token_or token (some cookie) = if str_eq token "" then cookie else token

  -- extractJwtFromReq: the payload. `cookie` is the decoded cookie named jwt, if there is one.
  unfoldable pub extract_jwt_from_req : String → String → Option String → ℕ → Option Row
  extract_jwt_from_req secret authorization cookie now =
      let token = token_or (bearer_token authorization) cookie in
      if str_eq token "" then none else verify_jwt secret token now
