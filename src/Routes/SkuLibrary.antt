-- ===== src/Routes/SkuLibrary.antt =====
-- src/routes/api_v1/admin/sku_library.ts, behind requireAdminToken. A number of the query is what
-- parseInt gives, `none` for NaN.
pub mod Laws
use jtfp_cloudrun.Base.{String, Option, none, some, List, [], ◌∷◌, ◌++◌, map, length}
use jtfp_cloudrun.Base.Int.{ℤ, pos, ◌+ℤ◌, ◌-ℤ◌, ◌*ℤ◌}
use jtfp_cloudrun.Base.Slice.{slice}
use jtfp_cloudrun.Js.{Value, undefined, null, str}
use jtfp_cloudrun.Js.Objects.{Row, get, put}
use jtfp_cloudrun.Store.State.{Process}
use jtfp_cloudrun.Http.{Reply, sent, Handler, json, status_json, error_only}
use jtfp_cloudrun.Repositories.Paging.{Page}
use jtfp_cloudrun.Repositories.Products.{ListQuery, list, get_skus, find_sku_by_code, find_by_id}
use jtfp_cloudrun.Routes.MyOrders.{at_most_hundred, page_body}

-- { ...sku, product_title: product.title }
abbrev pub with_title : Row → Row → Row
with_title product sku = put "product_title" (get "title" product) sku

-- The loop over the products.
unfoldable pub skus_of : List Row → String → Process → List Row × Process
skus_of [] now s = ([], s)
skus_of (product ∷ products) now s =
    let (skus, s1) = get_skus (get "id" product) now s in
    let (rest, s2) = skus_of products now s1 in (map (with_title product) skus ++ rest, s2)

-- allSkus.slice(offset, offset + pageSize): where a number is NaN, nothing
abbrev page_of_skus : Option ℤ → Option ℤ → List Row → List Row
page_of_skus (some page) (some size) skus =
    let offset = (page -ℤ pos 1) *ℤ size in slice offset (offset +ℤ size) skus
page_of_skus _ _ skus = []

abbrev pub all_products : ListQuery
all_products = record {
  page = none;
  page_size = some (pos 10000);
  keyword = undefined;
  category_id = none;
  status = undefined;
}

-- The answer: a page of the SKUs that the loop collected.
abbrev pub sku_page : Option ℤ → Option ℤ → List Row → Reply
sku_page page size skus =
    let shown : Page = record {
      total = length skus;
      page_rows = page_of_skus page (at_most_hundred size) skus;
    } in
    sent (json (page_body "skus" page (at_most_hundred size) shown))

-- GET /
unfoldable pub get_sku_library : (String → String) → Option ℤ → Option ℤ → String → Handler
get_sku_library to_lower_case page size now s =
    let (result, s1) = list to_lower_case all_products now s in
    let (skus, s2) = skus_of result.page_rows now s1 in (sku_page page size skus, s2)

-- `product`, null where there is none
abbrev product_object : Option Row → List (String × Row)
product_object none = []
product_object (some product) = ("product", product) ∷ []

abbrev product_field : Option Row → Row
product_field none = ("product", null) ∷ []
product_field (some product) = []

abbrev show_sku : Option Row → String → Handler
show_sku none now s = (sent (status_json 404 (error_only "SKU 不存在")), s)
show_sku (some sku) now s =
    let (product, s1) = find_by_id (get "product_id" sku) now s in
    (
      sent (
          json (record {
            fields = product_field product;
            objects = ("sku", sku) ∷ product_object product;
            lists = [];
          })),
      s1,
    )

-- GET /by-code/:code
unfoldable pub get_sku_by_code : String → String → Handler
get_sku_by_code code now s =
    let (sku, s1) = find_sku_by_code (str code) now s in show_sku sku now s1
