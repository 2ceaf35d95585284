-- ===== src/Repositories/Properties.antt =====
-- src/storage/repositories/properties.ts; the children have the detail view of the mall and the list
-- of community names.
pub mod Detail
pub mod Communities
use Prim.Native.String.{◌++◌ as str_append}
use jtfp_cloudrun.Base.{
  ℕ, ◌+◌, String, Bool, true, false, ◌&&◌, ◌||◌, not, Option, none, some, List, [], ◌∷◌, length,
  map, if◌then◌else◌,
}
use jtfp_cloudrun.Base.Int.{ℤ}
use jtfp_cloudrun.Js.{
  Value, undefined, nan, num, str, int, strict_eq, truthy, or_else, nullish, js_le, value_includes,
  to_number, exceeds, text_of,
}
use jtfp_cloudrun.Js.Objects.{Row, get, put}
use jtfp_cloudrun.Store.Table.{properties}
use jtfp_cloudrun.Store.State.{Process, get_table, flush_now}
use jtfp_cloudrun.Store.Rows
use jtfp_cloudrun.Store.Rows.{insert, find_one}
use jtfp_cloudrun.Repositories.Paging.{Page, filter_if, page_of, newest_first, sort_table}
use jtfp_cloudrun.Repositories.Products.{is_positive, in_category}

pub record ListQuery : Type 0 where
  pub page : Option ℤ
  pub page_size : Option ℤ
  pub community_name : Value
  pub customer_phone : Value
  pub auth_code : Value
  pub start_at : Value
  pub end_at : Value
  pub keyword : Value
  pub category_id : Option ℤ
  pub status : Value

-- (r[field] || 0)
abbrev field_or_zero : String → Row → Value
field_or_zero field r = or_else (get field r) (int 0)

-- The order of `list`: is_featured DESC, sort_order DESC, created_at DESC.
unfoldable pub property_order : Row → Row → Bool
property_order a b =
    if not (strict_eq (field_or_zero "is_featured" b) (field_or_zero "is_featured" a))
    then not (exceeds (field_or_zero "is_featured" b) (field_or_zero "is_featured" a))
    else if not (strict_eq (field_or_zero "sort_order" b) (field_or_zero "sort_order" a))
    then not (exceeds (field_or_zero "sort_order" b) (field_or_zero "sort_order" a))
    else newest_first a b

-- Number(v)
abbrev pub number_of : Value → Value
number_of v = elim (to_number v) [ none ↦ nan | some n ↦ num n ]

-- `toLowerCase` and `trim` are arguments: their tables of characters are not modelled.
module _ (to_lower_case : String → String) where
  abbrev lower : Value → Value
  lower (str s) = str (to_lower_case s)
  lower v = undefined

  -- The filters of `list`, in their order.
  unfoldable pub list_filters : ListQuery → List Row → List Row
  list_filters q rs =
      let rs1 =
        filter_if (truthy q.community_name)
          (λ r. value_includes (lower (get "community_name" r)) (lower q.community_name)) rs in
      let rs2 =
        filter_if (truthy q.customer_phone)
          (λ r. value_includes (get "customer_phone" r) q.customer_phone) rs1 in
      let rs3 =
        filter_if (truthy q.auth_code) (λ r. value_includes (get "auth_code" r) q.auth_code) rs2 in
      let rs4 =
        filter_if (truthy q.start_at)
          (λ r. truthy (get "created_at" r) && js_le q.start_at (get "created_at" r)) rs3 in
      let rs5 =
        filter_if (truthy q.end_at)
          (λ r. truthy (get "created_at" r) && js_le (get "created_at" r) q.end_at) rs4 in
      let rs6 =
        filter_if (truthy q.keyword)
          (λ r.
            value_includes (lower (get "community_name" r)) (lower q.keyword)
            || value_includes (lower (get "detail_address" r)) (lower q.keyword))
          rs5 in
      let rs7 = filter_if (is_positive q.category_id) (in_category q.category_id) rs6 in
      filter_if (not (strict_eq q.status undefined)) (λ r. strict_eq (get "status" r) q.status) rs7

  unfoldable pub is_unfiltered : ListQuery → Bool
  is_unfiltered q =
      not (truthy q.community_name)
      && not (truthy q.customer_phone)
      && not (truthy q.auth_code)
      && not (truthy q.start_at)
      && not (truthy q.end_at)
      && not (truthy q.keyword)
      && not (is_positive q.category_id)
      && strict_eq q.status undefined

  -- list
  unfoldable pub list : ListQuery → String → Process → Page × Process
  list q now s =
      let (all, s1) = get_table properties now s in
      let matching = list_filters q all in
      let (sorted, s2) = sort_table properties (is_unfiltered q) property_order matching s1 in
      (record { total = length matching; page_rows = page_of q.page q.page_size sorted }, s2)

module _ (trim : String → String) where
  -- `${community_name || ''} ${house_type || ''}`.trim() || '房源', on texts
  unfoldable pub mall_title : Row → Value
  mall_title r =
      or_else
        (str (
          trim (
            str_append (text_of (get "community_name" r))
              (str_append " " (text_of (get "house_type" r))))))
        (str "房源")

  unfoldable pub mall_entry : Row → Row
  mall_entry r =
      ("id", get "id" r)
      ∷ ("title", mall_title r)
      ∷ ("community_name", get "community_name" r)
      ∷ ("subtitle", or_else (get "detail_address" r) (str ""))
      ∷ ("price_cent", number_of (or_else (get "price_cent" r) (int 0)))
      ∷ ("cover_url", get "cover_url" r)
      ∷ ("building_area", get "building_area" r)
      ∷ ("floor_info", get "floor_info" r)
      ∷ ("house_type", get "house_type" r)
      ∷ ("starting_price", get "starting_price" r)
      ∷ ("evaluation_total_price", get "evaluation_total_price" r)
      ∷ ("school_district", get "school_district" r)
      ∷ ("business_circle", get "business_circle" r)
      ∷ ("auction_time", get "auction_time" r)
      ∷ ("bidding_phase", get "bidding_phase" r)
      ∷ ("profit_space", get "profit_space" r)
      ∷ ("stock", number_of (or_else (get "stock" r) (int 1)))
      ∷ ("is_featured", number_of (or_else (get "is_featured" r) (int 0)))
      ∷ ("created_at", get "created_at" r)
      ∷ []

module _ (to_lower_case trim : String → String) where
  -- listMall
  unfoldable pub list_mall : ListQuery → String → Process → Page × Process
  list_mall q now s =
      let (page, s1) = list to_lower_case (record q { status = int 1 }) now s in
      (record page { page_rows = map (mall_entry trim) page.page_rows }, s1)

-- findById
unfoldable pub find_by_id : Value → String → Process → Option Row × Process
find_by_id id = Rows.find_by_id properties id

-- The row that `create` hands to the store.
unfoldable pub property_of : Row → Row
property_of fields = put "price_cent" (nullish (get "price_cent" fields) (int 0)) (
    put "stock" (nullish (get "stock" fields) (int 1)) (
      put "sort_order" (nullish (get "sort_order" fields) (int 0)) (
        put "is_featured" (nullish (get "is_featured" fields) (int 0))
          (put "status" (nullish (get "status" fields) (int 0)) fields))))

-- create
unfoldable pub create : Row → String → Process → Row × Process
create fields now s = insert properties (property_of fields) now s

-- update
unfoldable pub update : Value → Row → String → Process → Bool × Process
update id fields now s = Rows.update properties id fields now s

-- remove
unfoldable pub remove : Value → String → Process → Bool × Process
remove id now s = Rows.remove properties id now s

-- The loop of `bulkInsert`.
unfoldable pub create_each : List Row → ℕ → String → Process → ℕ × Process
create_each [] n now s = (n, s)
create_each (r ∷ rs) n now s = create_each rs (n + 1) now (create r now s).1

-- bulkInsert
unfoldable pub bulk_insert : List Row → String → Process → ℕ × Process
bulk_insert rs now s = let (n, s1) = create_each rs 0 now s in (n, flush_now now s1)

abbrev is_found : Option Row → Bool
is_found none = false
is_found (some r) = true

-- existsByCategoryId
unfoldable pub exists_by_category_id : Value → String → Process → Bool × Process
exists_by_category_id id now s =
    let (found, s1) = find_one properties (λ r. strict_eq (get "category_id" r) id) now s in
    (is_found found, s1)
