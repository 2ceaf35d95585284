-- ===== src/Repositories/WelfareCodes.antt =====
-- src/storage/repositories/welfare_codes.ts
pub mod Usage
use mathlib.Core.List.{foldl}
use Prim.Native.String.{◌++◌ as str_append}
use jtfp_cloudrun.Base.{
  String, Bool, false, ◌&&◌, ◌||◌, not, Option, none, some, List, [], ◌∷◌, map, length, filter,
  if◌then◌else◌, str_eq,
}
use jtfp_cloudrun.Base.Int.{ℤ}
use jtfp_cloudrun.Js.{
  Value, undefined, str, int, strict_eq, truthy, nullish, js_le, js_lt, js_add, value_includes,
  text_of,
}
use jtfp_cloudrun.Js.Objects.{Row, get, put}
use jtfp_cloudrun.Store.Table.{welfare_codes, welfare_code_items}
use jtfp_cloudrun.Store.State.{Process, get_table}
use jtfp_cloudrun.Store.Rows
use jtfp_cloudrun.Store.Rows.{insert, find_one, find_all, remove_where}
use jtfp_cloudrun.Repositories.Paging.{Page, filter_if, page_of, newest_first, sort_table}

-- findById
unfoldable pub find_by_id : Value → String → Process → Option Row × Process
find_by_id id = Rows.find_by_id welfare_codes id

-- (r) => r.code === code
abbrev pub has_code : Value → Row → Bool
has_code code r = strict_eq (get "code" r) code

-- findByCode
unfoldable pub find_by_code : Value → String → Process → Option Row × Process
find_by_code code = find_one welfare_codes (has_code code)

-- The row that `create` hands to the store.
unfoldable pub code_of : Row → Row
code_of fields = put "status" (nullish (get "status" fields) (int 1)) (
    put "used_count" (nullish (get "used_count" fields) (int 0))
      (put "total_count" (nullish (get "total_count" fields) (int 0)) fields))

-- create
unfoldable pub create : Row → String → Process → Row × Process
create fields now s = insert welfare_codes (code_of fields) now s

-- update
unfoldable pub update : Value → Row → String → Process → Bool × Process
update id fields now s = Rows.update welfare_codes id fields now s

-- (r) => r.welfare_code_id === id
abbrev pub of_code : Value → Row → Bool
of_code id r = strict_eq (get "welfare_code_id" r) id

-- remove
unfoldable pub remove : Value → String → Process → Bool × Process
remove id now s =
    let (n, s1) = remove_where welfare_code_items (of_code id) now s in
    Rows.remove welfare_codes id now s1

-- wc.used_count >= wc.total_count
abbrev pub is_used_up : Row → Bool
is_used_up wc = js_le (get "total_count" wc) (get "used_count" wc)

abbrev use_found : Option Row → String → Process → Bool × Process
use_found none now s = (false, s)
use_found (some wc) now s =
    if is_used_up wc
    then (false, s)
    else Rows.update welfare_codes (get "id" wc)
        (("used_count", js_add (get "used_count" wc) (int 1)) ∷ []) now s

-- useCode
unfoldable pub use_code : Value → String → Process → Bool × Process
use_code code now s = let (wc, s1) = find_by_code code now s in use_found wc now s1

-- getItems
unfoldable pub get_items : Value → String → Process → List Row × Process
get_items id = find_all welfare_code_items (of_code id)

-- addItem
unfoldable pub add_item : Row → String → Process → Row × Process
add_item fields now s = insert welfare_code_items fields now s

-- removeItem
unfoldable pub remove_item : Value → String → Process → Bool × Process
remove_item id now s = Rows.remove welfare_code_items id now s

-- The answer of `validateCode`: valid with the code, or a message.
pub data Validation : Type 0 where
  valid : Row → Validation
  invalid : String → Validation

-- The checks of `validateCode` on the code that was found, in their order.
unfoldable pub validate : String → Row → Validation
validate now wc =
    if not (strict_eq (get "status" wc) (int 1))
    then invalid "福利码已禁用"
    else if is_used_up wc
    then invalid "福利码已用完"
    else if truthy (get "valid_from" wc) && js_lt (str now) (get "valid_from" wc)
    then invalid "福利码尚未生效"
    else if truthy (get "valid_to" wc) && js_lt (get "valid_to" wc) (str now)
    then invalid "福利码已过期"
    else valid wc

abbrev validate_found : Option Row → String → Validation
validate_found none now = invalid "福利码不存在"
validate_found (some wc) now = validate now wc

-- validateCode
unfoldable pub validate_code : Value → String → Process → Validation × Process
validate_code code now s = let (wc, s1) = find_by_code code now s in (validate_found wc now, s1)

pub record ListQuery : Type 0 where
  pub page : Option ℤ
  pub page_size : Option ℤ
  pub keyword : Value
  pub status : Value
  pub type : Value

abbrev join_with : String → Value → String
join_with s v = if str_eq s "" then text_of v else str_append s (str_append ", " (text_of v))

-- values.filter(Boolean).join(', '), on texts
unfoldable pub join : List Value → String
join vs = foldl join_with "" (filter truthy vs)

-- `toLowerCase` is an argument: its tables of letters are not modelled.
module _ (to_lower_case : String → String) where
  -- text?.toLowerCase()
  abbrev lower : Value → Value
  lower (str s) = str (to_lower_case s)
  lower v = undefined

  unfoldable pub list_filters : ListQuery → List Row → List Row
  list_filters q rs =
      let kw = lower q.keyword in
      let rs1 =
        filter_if (truthy q.keyword)
          (λ r.
            value_includes (lower (get "code" r)) kw || value_includes (lower (get "name" r)) kw)
          rs in
      let rs2 =
        filter_if (not (strict_eq q.status undefined)) (λ r. strict_eq (get "status" r) q.status)
          rs1 in
      filter_if (truthy q.type) (λ r. strict_eq (get "type" r) q.type) rs2

  unfoldable pub is_unfiltered : ListQuery → Bool
  is_unfiltered q = not (truthy q.keyword) && strict_eq q.status undefined && not (truthy q.type)

  unfoldable pub with_items : List Row → Row → Row
  with_items items wc =
      let of_this = filter (of_code (get "id" wc)) items in
      put "sku_titles" (str (join (map (get "sku_title") of_this)))
        (put "sku_codes" (str (join (map (get "sku_code") of_this))) wc)

  -- list
  unfoldable pub list : ListQuery → String → Process → Page × Process
  list q now s =
      let (all, s1) = get_table welfare_codes now s in
      let matching = list_filters q all in
      let (sorted, s2) = sort_table welfare_codes (is_unfiltered q) newest_first matching s1 in
      let (items, s3) = get_table welfare_code_items now s2 in
      (
        record {
          total = length matching;
          page_rows = map (with_items items) (page_of q.page q.page_size sorted);
        },
        s3,
      )
