-- ===== src/Routes/AdminProperties.antt =====
-- src/routes/api_v1/admin/properties.ts, behind requireAdminToken. A number of the query is what
-- parseInt gives, `none` for NaN; `id` is what Number gives of the path.
pub mod Import
use jtfp_cloudrun.Base.{
  String, Bool, true, not, Option, none, some, List, [], ◌∷◌, map, if◌then◌else◌,
}
use jtfp_cloudrun.Base.Int.{ℤ, pos, ◌*ℤ◌}
use jtfp_cloudrun.Js.{
  Value, undefined, num, str, int, bool, strict_eq, truthy, or_else, to_number, to_text,
}
use jtfp_cloudrun.Js.Objects.{Row, get, put}
use jtfp_cloudrun.Store.State.{Process}
use jtfp_cloudrun.Http.{Reply, sent, Handler, json, status_json, error_only, fields_only}
use jtfp_cloudrun.Repositories.Properties
use jtfp_cloudrun.Repositories.Properties.Communities.{get_community_names}
use jtfp_cloudrun.Routes.MyOrders.{at_most_hundred, page_body}

-- The filters of the query, undefined where they are not given.
pub record PropertyListQuery : Type 0 where
  pub community_name : Value
  pub customer_phone : Value
  pub auth_code : Value
  pub start_at : Value
  pub end_at : Value

-- GET /
unfoldable pub get_properties :
    (String → String) → Option ℤ → Option ℤ → PropertyListQuery → String → Handler
get_properties to_lower_case page size query now s =
    let q : Properties.ListQuery = record {
      page = page;
      page_size = at_most_hundred size;
      community_name = query.community_name;
      customer_phone = query.customer_phone;
      auth_code = query.auth_code;
      start_at = query.start_at;
      end_at = query.end_at;
      keyword = undefined;
      category_id = none;
      status = undefined;
    } in
    let (result, s1) = Properties.list to_lower_case q now s in
    (sent (json (page_body "properties" page (at_most_hundred size) result)), s1)

-- GET /communities: each name is an object of its own here, under the key "name".
unfoldable pub get_communities : String → Handler
get_communities now s =
    let (names, s1) = get_community_names now s in
    (
      sent (
          json (record {
            fields = [];
            objects = [];
            lists = ("communities", map (λ name. ("name", str name) ∷ []) names) ∷ [];
          })),
      s1,
    )

abbrev not_found : Reply
not_found = sent (status_json 404 (error_only "房源不存在"))

abbrev show_found : Option Row → Process → Reply × Process
show_found none s = (not_found, s)
show_found (some property) s =
    (sent (json (record { fields = []; objects = ("property", property) ∷ []; lists = [] })), s)

-- GET /:id
unfoldable pub get_property : Value → String → Handler
get_property id now s =
    let (property, s1) = Properties.find_by_id id now s in show_found property s1

-- A body: its scalar fields, and the JSON texts of its images and its module_config where those are
-- lists or objects.
pub record PropertyBody : Type 0 where
  pub scalars : Row
  pub images_json : Option String
  pub module_config_json : Option String

-- if (value !== undefined) data[field] = to(value)
abbrev set_if : Value → String → Value → Row → Row
set_if given field value r = if strict_eq given undefined then r else put field value r

-- Math.round(Number(v) * 100) || 0, on whole numbers
unfoldable pub cents_of : Value → Value
cents_of v = elim (to_number v) [ none ↦ int 0 | some n ↦ num (n *ℤ pos 100) ]

-- Number(v) || 0
unfoldable pub number_or_zero : Value → Value
number_or_zero v = elim (to_number v) [ none ↦ int 0 | some n ↦ num n ]

-- typeof v === 'string' ? v : JSON.stringify(v)
abbrev set_json : Option String → String → Row → Row → Row
set_json (some json_text) field body r = put field (str json_text) r
set_json none field body r = set_if (get field body) field (str (to_text (get field body))) r

-- What POST and PUT make of the body before they write it.
unfoldable pub property_data : PropertyBody → Row
property_data request =
    let body = request.scalars in
    let r1 = set_if (get "priceYuan" body) "price_cent" (cents_of (get "priceYuan" body)) body in
    let r2 = set_if (get "coverUrl" body) "cover_url" (get "coverUrl" body) r1 in
    let r3 = set_json request.images_json "images" body r2 in
    let r4 =
      set_if (get "isFeatured" body) "is_featured"
        (if truthy (get "isFeatured" body) then int 1 else int 0) r3 in
    let r5 =
      set_if (get "sortOrder" body) "sort_order" (number_or_zero (get "sortOrder" body)) r4 in
    set_json request.module_config_json "module_config" body r5

-- POST /
unfoldable pub post_property : PropertyBody → String → Handler
post_property request now s =
    if not (truthy (get "community_name" request.scalars))
    then (sent (status_json 400 (error_only "小区名称为必填项")), s)
    else (let (property, s1) = Properties.create (property_data request) now s in
        (
          sent (
              json (
                fields_only (
                  ("success", bool true)
                  ∷ ("message", str "房源创建成功")
                  ∷ ("id", get "id" property)
                  ∷ []))),
          s1,
        ))

abbrev done : String → Reply
done message = sent (json (fields_only (("success", bool true) ∷ ("message", str message) ∷ [])))

abbrev update_found : Option Row → Value → PropertyBody → String → Handler
update_found none id request now s = (not_found, s)
update_found (some existing) id request now s =
    (done "房源更新成功", (Properties.update id (property_data request) now s).1)

-- PUT /:id
unfoldable pub put_property : Value → PropertyBody → String → Handler
put_property id request now s =
    let (existing, s1) = Properties.find_by_id id now s in update_found existing id request now s1

abbrev delete_found : Option Row → Value → String → Handler
delete_found none id now s = (not_found, s)
delete_found (some existing) id now s = (done "房源删除成功", (Properties.remove id now s).1)

-- DELETE /:id
unfoldable pub delete_property : Value → String → Handler
delete_property id now s =
    let (existing, s1) = Properties.find_by_id id now s in delete_found existing id now s1
