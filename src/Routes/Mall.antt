-- ===== src/Routes/Mall.antt =====
-- src/routes/api_v1/properties_mall.ts. A number of the query is what parseInt gives, `none` for NaN.
use jtfp_cloudrun.Base.{String, Option, none, some, List, [], ◌∷◌}
use jtfp_cloudrun.Base.Int.{ℤ, pos}
use jtfp_cloudrun.Js.{Value, undefined, str, or_else, to_text, int}
use jtfp_cloudrun.Js.Objects.{Row}
use jtfp_cloudrun.Store.State.{Process}
use jtfp_cloudrun.Http.{Body, Reply, sent, Handler, json, status_json, code_message}
use jtfp_cloudrun.Repositories.Paging.{Page}
use jtfp_cloudrun.Repositories.Categories
use jtfp_cloudrun.Repositories.Properties.{ListQuery, list_mall}
use jtfp_cloudrun.Repositories.Properties.Detail.{Detail, find_mall_by_id}
use jtfp_cloudrun.Routes.MyOrders.{number_value, at_least_one, at_most_hundred}
use jtfp_cloudrun.Routes.Products.{if_positive}

-- toInt
unfoldable pub to_int : Option ℤ → ℤ → Option ℤ
to_int none fallback = some fallback
to_int (some n) fallback = some n

-- { total, page, pageSize, list, data, properties }
abbrev mall_body : Option ℤ → Option ℤ → Page → Body
mall_body page size result = record {
  fields =
      ("total", int result.total)
      ∷ ("page", number_value page)
      ∷ ("pageSize", number_value size)
      ∷ [];
  objects = [];
  lists =
      ("list", result.page_rows)
      ∷ ("data", result.page_rows)
      ∷ ("properties", result.page_rows)
      ∷ [];
}

-- GET /
unfoldable pub get_mall :
    (String → String)
    → (String → String)
    → Option ℤ
    → Option ℤ
    → Value
    → Option ℤ
    → String
    → Handler
get_mall to_lower_case trim page size keyword category_id now s =
    let number = at_least_one (to_int page (pos 1)) in
    let length = at_most_hundred (at_least_one (to_int size (pos 20))) in
    let asked = str (trim (to_text (or_else keyword (str "")))) in
    let q : ListQuery = record {
      page = number;
      page_size = length;
      community_name = undefined;
      customer_phone = undefined;
      auth_code = undefined;
      start_at = undefined;
      end_at = undefined;
      keyword = or_else asked undefined;
      category_id = if_positive (to_int category_id (pos 0));
      status = undefined;
    } in
    let (result, s1) = list_mall to_lower_case trim q now s in
    (sent (json (mall_body number length result)), s1)

-- GET /categories
unfoldable pub get_mall_categories : String → Handler
get_mall_categories now s =
    let (rs, s1) = Categories.list_enabled now s in
    (sent (json (record { fields = []; objects = []; lists = ("categories", rs) ∷ [] })), s1)

-- What GET /:id answers: the detail, under both of its names, and no SKUs.
pub data DetailReply : Type 0 where
  found : Detail → DetailReply
  refused : Reply → DetailReply

abbrev detail_reply : Option Detail → DetailReply
detail_reply none = refused (sent (status_json 404 (code_message "NOT_FOUND" "房源不存在或已下架")))
detail_reply (some detail) = found detail

-- GET /:id
unfoldable pub get_mall_property :
    (String → String)
    → (String → Option (List String))
    → (String → Option (List Row))
    → Value
    → String
    → Process
    → DetailReply × Process
get_mall_property trim parse_images parse_tabs id now s =
    let (detail, s1) = find_mall_by_id trim parse_images parse_tabs id now s in
    (detail_reply detail, s1)
