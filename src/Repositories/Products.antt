-- ===== src/Repositories/Products.antt =====
-- src/storage/repositories/products.ts
pub mod Stock
use jtfp_cloudrun.Base.{
  String, Bool, false, ◌&&◌, not, Option, none, some, List, [], ◌∷◌, length, if◌then◌else◌,
}
use jtfp_cloudrun.Base.Int.{ℤ, pos, ltb_ℤ}
use jtfp_cloudrun.Base.Sort.{sort}
use jtfp_cloudrun.Js.{
  Value, undefined, num, str, int, strict_eq, truthy, nullish, js_lt, js_add, js_sub, exceeds,
  value_includes,
}
use jtfp_cloudrun.Js.Objects.{Row, get, put}
use jtfp_cloudrun.Store.Table.{products, product_skus}
use jtfp_cloudrun.Store.State.{Process, get_table}
use jtfp_cloudrun.Store.Rows
use jtfp_cloudrun.Store.Rows.{insert, find_one, find_all, remove_where}
use jtfp_cloudrun.Repositories.Paging.{Page, filter_if, page_of, newest_first, sort_table}

-- b.field - a.field is not above 0: a comparator that gives NaN counts as 0
abbrev pub larger_first : String → Row → Row → Bool
larger_first field a b = not (exceeds (get field b) (get field a))

abbrev pub same_field : String → Row → Row → Bool
same_field field a b = strict_eq (get field b) (get field a)

-- The order of `list`: featured first, then by sort_order, then the newest.
unfoldable pub product_order : Row → Row → Bool
product_order a b =
    if not (same_field "is_featured" a b)
    then larger_first "is_featured" a b
    else if not (same_field "sort_order" a b)
    then larger_first "sort_order" a b
    else newest_first a b

pub record ListQuery : Type 0 where
  pub page : Option ℤ
  pub page_size : Option ℤ
  pub keyword : Value
  pub category_id : Option ℤ
  pub status : Value

abbrev pub is_positive : Option ℤ → Bool
is_positive none = false
is_positive (some n) = ltb_ℤ (pos 0) n

abbrev pub in_category : Option ℤ → Row → Bool
in_category none r = false
in_category (some n) r = strict_eq (get "category_id" r) (num n)

-- `toLowerCase` is an argument: its tables of letters are not modelled.
module _ (to_lower_case : String → String) where
  abbrev lower : Value → Value
  lower (str s) = str (to_lower_case s)
  lower v = undefined

  unfoldable pub list_filters : ListQuery → List Row → List Row
  list_filters q rs =
      let kw = lower q.keyword in
      let rs1 = filter_if (truthy q.keyword) (λ r. value_includes (lower (get "title" r)) kw) rs in
      let rs2 = filter_if (is_positive q.category_id) (in_category q.category_id) rs1 in
      filter_if (not (strict_eq q.status undefined)) (λ r. strict_eq (get "status" r) q.status) rs2

  unfoldable pub is_unfiltered : ListQuery → Bool
  is_unfiltered q =
      not (truthy q.keyword) && not (is_positive q.category_id) && strict_eq q.status undefined

  -- list
  unfoldable pub list : ListQuery → String → Process → Page × Process
  list q now s =
      let (all, s1) = get_table products now s in
      let matching = list_filters q all in
      let (sorted, s2) = sort_table products (is_unfiltered q) product_order matching s1 in
      (record { total = length matching; page_rows = page_of q.page q.page_size sorted }, s2)

  -- listEnabled
  unfoldable pub list_enabled : ListQuery → String → Process → Page × Process
  list_enabled q now s = list (record q { status = int 1 }) now s

-- findById
unfoldable pub find_by_id : Value → String → Process → Option Row × Process
find_by_id id = Rows.find_by_id products id

abbrev or_zero : String → Row → Row → Row
or_zero field fields r = put field (nullish (get field fields) (int 0)) r

-- create
unfoldable pub create : Row → String → Process → Row × Process
create fields now s =
    insert products
      (or_zero "price_cent" fields (
        or_zero "sales" fields (
          or_zero "stock" fields (
            or_zero "sort_order" fields
              (or_zero "is_featured" fields (or_zero "status" fields fields))))))
      now s

-- update
unfoldable pub update : Value → Row → String → Process → Bool × Process
update id fields now s = Rows.update products id fields now s

-- (r) => r.product_id === id
abbrev pub of_product : Value → Row → Bool
of_product id r = strict_eq (get "product_id" r) id

-- remove
unfoldable pub remove : Value → String → Process → Bool × Process
remove id now s =
    let (n, s1) = remove_where product_skus (of_product id) now s in Rows.remove products id now s1

-- getSkus
unfoldable pub get_skus : Value → String → Process → List Row × Process
get_skus id now s =
    let (skus, s1) = find_all product_skus (of_product id) now s in
    (sort (larger_first "sort_order") skus, s1)

-- findSkuById
unfoldable pub find_sku_by_id : Value → String → Process → Option Row × Process
find_sku_by_id id = Rows.find_by_id product_skus id

-- findSkuByCode
unfoldable pub find_sku_by_code : Value → String → Process → Option Row × Process
find_sku_by_code code = find_one product_skus (λ r. strict_eq (get "sku_code" r) code)

-- addSku
unfoldable pub add_sku : Row → String → Process → Row × Process
add_sku fields now s =
    insert product_skus
      (or_zero "price_cent" fields (
        or_zero "stock" fields (
          or_zero "sort_order" fields
            (put "status" (nullish (get "status" fields) (int 1)) fields))))
      now s

-- updateSku
unfoldable pub update_sku : Value → Row → String → Process → Bool × Process
update_sku id fields now s = Rows.update product_skus id fields now s

-- removeSku
unfoldable pub remove_sku : Value → String → Process → Bool × Process
remove_sku id now s = Rows.remove product_skus id now s

abbrev decrease_found : Option Row → Value → Value → String → Process → Bool × Process
decrease_found none id quantity now s = (false, s)
decrease_found (some sku) id quantity now s =
    if js_lt (get "stock" sku) quantity
    then (false, s)
    else Rows.update product_skus id (("stock", js_sub (get "stock" sku) quantity) ∷ []) now s

-- decreaseStock
unfoldable pub decrease_stock : Value → Value → String → Process → Bool × Process
decrease_stock id quantity now s =
    let (sku, s1) = find_sku_by_id id now s in decrease_found sku id quantity now s1

abbrev increase_found : Option Row → Value → Value → String → Process → Bool × Process
increase_found none id quantity now s = (false, s)
increase_found (some sku) id quantity now s =
    Rows.update product_skus id (("stock", js_add (get "stock" sku) quantity) ∷ []) now s

-- increaseStock
unfoldable pub increase_stock : Value → Value → String → Process → Bool × Process
increase_stock id quantity now s =
    let (sku, s1) = find_sku_by_id id now s in increase_found sku id quantity now s1
