-- ===== src/Routes/WelfareCodes.antt =====
-- src/routes/welfare_codes.ts
pub mod Laws
use jtfp_cloudrun.Base.{String, Bool, true, false, [], ◌∷◌, if◌then◌else◌}
use jtfp_cloudrun.Js.{Value, str, bool}
use jtfp_cloudrun.Js.Objects.{get}
use jtfp_cloudrun.Http.{
  Parsed, parsed, rejected, Reply, sent, next_error, zod_error, Handler, Body, json, fields_only,
}
use jtfp_cloudrun.Repositories.WelfareCodes.{Validation, valid, invalid, validate_code, use_code}

-- The JSON of a validation.
abbrev pub validation_body : Validation → Body
validation_body (valid wc) = record {
  fields = ("valid", bool true) ∷ [];
  objects = ("welfareCode", wc) ∷ [];
  lists = [];
}
validation_body (invalid message) =
    fields_only (("valid", bool false) ∷ ("message", str message) ∷ [])

-- POST /validate
unfoldable pub post_validate : Parsed → String → Handler
post_validate (rejected issue) now s = (next_error (zod_error issue), s)
post_validate (parsed body) now s =
    let (v, s1) = validate_code (get "code" body) now s in (sent (json (validation_body v)), s1)

abbrev pub use_reply : Bool → Reply
use_reply success = sent (
    json (
      fields_only (
        ("success", bool success)
        ∷ ("message", str (if success then "福利码使用成功" else "福利码使用失败"))
        ∷ [])))

abbrev use_validated : Validation → Value → String → Handler
use_validated (invalid message) code now s =
    (sent (record { status = 400; body = validation_body (invalid message) }), s)
use_validated (valid wc) code now s =
    let (success, s1) = use_code code now s in (use_reply success, s1)

-- POST /use
unfoldable pub post_use : Parsed → String → Handler
post_use (rejected issue) now s = (next_error (zod_error issue), s)
post_use (parsed body) now s =
    let (v, s1) = validate_code (get "code" body) now s in use_validated v (get "code" body) now s1
