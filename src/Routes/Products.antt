-- ===== src/Routes/Products.antt =====
-- src/routes/api_v1/products.ts, and src/routes/products.ts, which is the same; the list of
-- src/routes/reviews.ts. A number of the query is what parseInt gives, `none` for NaN.
use jtfp_cloudrun.Base.{String, not, Option, none, some, [], ◌∷◌, if◌then◌else◌}
use jtfp_cloudrun.Base.Int.{ℤ, pos, ltb_ℤ}
use jtfp_cloudrun.Js.{Value, undefined, num, int, or_else, strict_eq}
use jtfp_cloudrun.Js.Objects.{Row, get}
use jtfp_cloudrun.Http.{Reply, sent, Handler, json, status_json, code_message}
use jtfp_cloudrun.Repositories.Products.{ListQuery, list_enabled, find_by_id, get_skus}
use jtfp_cloudrun.Repositories.Reviews
use jtfp_cloudrun.Routes.MyOrders.{number_value, at_least_one, at_most_hundred, page_body}

-- n > 0 ? n : undefined
abbrev pub if_positive : Option ℤ → Option ℤ
if_positive none = none
if_positive (some n) = if ltb_ℤ (pos 0) n then some n else none

-- GET /
unfoldable pub get_products :
    (String → String) → Option ℤ → Option ℤ → Value → Option ℤ → String → Handler
get_products to_lower_case page size keyword category_id now s =
    let q : ListQuery = record {
      page = at_least_one page;
      page_size = at_most_hundred size;
      keyword = or_else keyword undefined;
      category_id = if_positive category_id;
      status = undefined;
    } in
    let (result, s1) = list_enabled to_lower_case q now s in
    (sent (json (page_body "list" (at_least_one page) (at_most_hundred size) result)), s1)

abbrev not_found : Reply
not_found = sent (status_json 404 (code_message "NOT_FOUND" "商品不存在"))

abbrev show_found : Option Row → Option ℤ → String → Handler
show_found none id now s = (not_found, s)
show_found (some product) id now s =
    if not (strict_eq (get "status" product) (int 1))
    then (not_found, s)
    else (let (skus, s1) = get_skus (number_value id) now s in
        (
          sent (
              json (record {
                fields = [];
                objects = ("product", product) ∷ [];
                lists = ("skus", skus) ∷ [];
              })),
          s1,
        ))

-- GET /:id
unfoldable pub get_product : Option ℤ → String → Handler
get_product id now s =
    let (product, s1) = find_by_id (number_value id) now s in show_found product id now s1

abbrev number_or_undefined : Option ℤ → Value
number_or_undefined none = undefined
number_or_undefined (some n) = num n

-- GET / of src/routes/reviews.ts
unfoldable pub get_reviews : Option ℤ → Option ℤ → Option ℤ → String → Handler
get_reviews product_id page size now s =
    let q : Reviews.ListQuery = record {
      page = at_least_one page;
      page_size = at_most_hundred size;
      product_id = number_or_undefined (if_positive product_id);
      user_id = undefined;
      status = int 1;
    } in
    let (result, s1) = Reviews.list q now s in
    (sent (json (page_body "reviews" (at_least_one page) (at_most_hundred size) result)), s1)
