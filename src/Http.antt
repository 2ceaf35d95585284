-- ===== src/Http.antt =====
-- Responses, the errors of src/utils/errors.ts, and the middlewares of src/middlewares that guard
-- the routes. The request and the schema library are not modelled: a handler takes what it reads of
-- them as arguments, a validated body as what the schema's `parse` gives.
pub mod Guards
use Prim.Native.String.{◌++◌ as str_append}
use jtfp_cloudrun.Base.{ℕ, String, Bool, Option, none, some, List, [], ◌∷◌, if◌then◌else◌, str_eq}
use jtfp_cloudrun.Js.{Value, undefined, str}
use jtfp_cloudrun.Js.Objects.{Row}
use jtfp_cloudrun.Store.State.{Process}

-- A JSON body: its scalar fields, its objects and its lists of objects.
pub record Body : Type 0 where
  pub fields : Row
  pub objects : List (String × Row)
  pub lists : List (String × List Row)

pub record Response : Type 0 where
  pub status : ℕ
  pub body : Body

abbrev pub fields_only : Row → Body
fields_only r = record { fields = r; objects = []; lists = [] }

-- res.json(body), res.status(status).json(body)
abbrev pub json : Body → Response
json b = record { status = 200; body = b }

abbrev pub status_json : ℕ → Row → Response
status_json code r = record { status = code; body = fields_only r }

abbrev pub code_message : String → String → Row
code_message code message = ("code", str code) ∷ ("message", str message) ∷ []

abbrev pub error_only : String → Row
error_only message = ("error", str message) ∷ []

-- What a handler passes to `next`. An issue of the schema library has a path and a message.
pub data Error : Type 0 where
  zod_error : Option (List String × String) → Error
  app_error : ℕ → String → String → Error
  other_error : String → Error

-- What a schema's `parse` gives for a body: the validated body, or the issue that it throws.
pub data Parsed : Type 0 where
  parsed : Row → Parsed
  rejected : Option (List String × String) → Parsed

-- What a handler does: it answers, or passes an error on.
pub data Reply : Type 0 where
  sent : Response → Reply
  next_error : Error → Reply

join_path : List String → String
join_path [] = ""
join_path (p ∷ []) = p
join_path (p ∷ q ∷ ps) = str_append p (str_append "." (join_path (q ∷ ps)))

issue_text : Option (List String × String) → String
issue_text none = "参数错误"
issue_text (some (path, message)) =
    if str_eq message ""
    then "参数错误"
    else if str_eq (join_path path) ""
    then message
    else str_append (join_path path) (str_append ": " message)

-- errorMiddleware
unfoldable pub error_middleware : String → Error → Response
unfolding issue_text join_path
error_middleware request_id (zod_error issue) = status_json 400 (
    ("code", str "BAD_REQUEST")
    ∷ ("message", str (issue_text issue))
    ∷ ("requestId", str request_id)
    ∷ [])
error_middleware request_id (app_error status code message) =
    status_json status
      (("code", str code) ∷ ("message", str message) ∷ ("requestId", str request_id) ∷ [])
error_middleware request_id (other_error message) = status_json 500 (
    ("code", str "INTERNAL_ERROR")
    ∷ ("message", str "Internal server error")
    ∷ ("requestId", str request_id)
    ∷ [])

-- The response that the client gets.
unfoldable pub answer : String → Reply → Response
answer request_id (sent r) = r
answer request_id (next_error e) = error_middleware request_id e

abbrev pub Handler : Type 0
Handler = Process → Reply × Process
