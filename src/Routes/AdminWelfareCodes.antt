-- ===== src/Routes/AdminWelfareCodes.antt =====
-- src/routes/api_v1/admin/welfare_codes.ts, behind requireAdminToken. `id` is what parseInt gives,
-- `none` for NaN. The body is an object of scalar fields, which no schema checks.
use jtfp_cloudrun.Base.{String, true, Option, none, some, [], ◌∷◌}
use jtfp_cloudrun.Base.Int.{ℤ}
use jtfp_cloudrun.Js.{Value, undefined, bool, or_else}
use jtfp_cloudrun.Js.Objects.{Row, get}
use jtfp_cloudrun.Http.{Reply, sent, Handler, json, status_json, error_only, fields_only}
use jtfp_cloudrun.Repositories.WelfareCodes.{
  ListQuery, list, find_by_id, get_items, create, update, remove, validate_code,
}
use jtfp_cloudrun.Routes.MyOrders.{number_value, at_most_hundred, page_body}
use jtfp_cloudrun.Routes.WelfareCodes.{validation_body}

abbrev not_found : Reply
not_found = sent (status_json 404 (error_only "福利码不存在"))

-- GET /
unfoldable pub get_codes : (String → String) → Option ℤ → Option ℤ → Value → String → Handler
get_codes to_lower_case page size keyword now s =
    let q : ListQuery = record {
      page = page;
      page_size = at_most_hundred size;
      keyword = or_else keyword undefined;
      status = undefined;
      type = undefined;
    } in
    let (result, s1) = list to_lower_case q now s in
    (sent (json (page_body "codes" page (at_most_hundred size) result)), s1)

abbrev show_found : Option Row → Option ℤ → String → Handler
show_found none id now s = (not_found, s)
show_found (some code) id now s =
    let (items, s1) = get_items (number_value id) now s in
    (
      sent (
          json
            (record { fields = []; objects = ("code", code) ∷ []; lists = ("items", items) ∷ [] })),
      s1,
    )

-- GET /:id
unfoldable pub get_code : Option ℤ → String → Handler
get_code id now s = let (code, s1) = find_by_id (number_value id) now s in show_found code id now s1

-- POST /
unfoldable pub post_code : Row → String → Handler
post_code body now s =
    let (code, s1) = create body now s in
    (sent (json (fields_only (("success", bool true) ∷ ("id", get "id" code) ∷ []))), s1)

abbrev done : Reply
done = sent (json (fields_only (("success", bool true) ∷ [])))

abbrev update_found : Option Row → Option ℤ → Row → String → Handler
update_found none id body now s = (not_found, s)
update_found (some code) id body now s = (done, (update (number_value id) body now s).1)

-- PUT /:id: the body's fields are written as they are
unfoldable pub put_code : Option ℤ → Row → String → Handler
put_code id body now s =
    let (code, s1) = find_by_id (number_value id) now s in update_found code id body now s1

-- DELETE /:id
unfoldable pub delete_code : Option ℤ → String → Handler
delete_code id now s = (done, (remove (number_value id) now s).1)

-- POST /validate
unfoldable pub post_validate : Value → String → Handler
post_validate code now s =
    let (v, s1) = validate_code code now s in (sent (json (validation_body v)), s1)
