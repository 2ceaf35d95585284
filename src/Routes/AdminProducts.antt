-- ===== src/Routes/AdminProducts.antt =====
-- src/routes/api_v1/admin/products.ts, behind requireAdminToken. `id` is what parseInt gives, `none`
-- for NaN. The body is an object of scalar fields, which no schema checks.
use jtfp_cloudrun.Base.{String, true, Option, none, some, [], ◌∷◌}
use jtfp_cloudrun.Base.Int.{ℤ}
use jtfp_cloudrun.Js.{Value, undefined, bool, or_else}
use jtfp_cloudrun.Js.Objects.{Row, get}
use jtfp_cloudrun.Http.{Reply, sent, Handler, json, status_json, error_only, fields_only}
use jtfp_cloudrun.Repositories.Products.{
  ListQuery, list, find_by_id, get_skus, create, update, remove,
}
use jtfp_cloudrun.Routes.MyOrders.{number_value, at_most_hundred, page_body}

abbrev not_found : Reply
not_found = sent (status_json 404 (error_only "商品不存在"))

-- GET /
unfoldable pub get_products : (String → String) → Option ℤ → Option ℤ → Value → String → Handler
get_products to_lower_case page size keyword now s =
    let q : ListQuery = record {
      page = page;
      page_size = at_most_hundred size;
      keyword = or_else keyword undefined;
      category_id = none;
      status = undefined;
    } in
    let (result, s1) = list to_lower_case q now s in
    (sent (json (page_body "products" page (at_most_hundred size) result)), s1)

abbrev show_found : Option Row → Option ℤ → String → Handler
show_found none id now s = (not_found, s)
show_found (some product) id now s =
    let (skus, s1) = get_skus (number_value id) now s in
    (
      sent (
          json (record {
            fields = [];
            objects = ("product", product) ∷ [];
            lists = ("skus", skus) ∷ [];
          })),
      s1,
    )

-- GET /:id
unfoldable pub get_product : Option ℤ → String → Handler
get_product id now s =
    let (product, s1) = find_by_id (number_value id) now s in show_found product id now s1

-- POST /
unfoldable pub post_product : Row → String → Handler
post_product body now s =
    let (product, s1) = create body now s in
    (sent (json (fields_only (("success", bool true) ∷ ("id", get "id" product) ∷ []))), s1)

abbrev done : Reply
done = sent (json (fields_only (("success", bool true) ∷ [])))

abbrev update_found : Option Row → Option ℤ → Row → String → Handler
update_found none id body now s = (not_found, s)
update_found (some product) id body now s = (done, (update (number_value id) body now s).1)

-- PUT /:id: the body's fields are written as they are
unfoldable pub put_product : Option ℤ → Row → String → Handler
put_product id body now s =
    let (product, s1) = find_by_id (number_value id) now s in update_found product id body now s1

-- DELETE /:id
unfoldable pub delete_product : Option ℤ → String → Handler
delete_product id now s = (done, (remove (number_value id) now s).1)
