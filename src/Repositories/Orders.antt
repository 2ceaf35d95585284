-- ===== src/Repositories/Orders.antt =====
-- src/storage/repositories/orders.ts
pub mod Laws
pub mod Removal
use mathlib.Core.List.{reverse}
use Prim.Native.String.{◌++◌ as str_append}
use jtfp_cloudrun.Base.{
  ℕ, String, Bool, true, false, ◌&&◌, not, Option, none, some, List, [], ◌∷◌, map, length, find,
  if◌then◌else◌,
}
use jtfp_cloudrun.Base.Int.{ℤ}
use jtfp_cloudrun.Js.{
  Value, undefined, null, str, int, strict_eq, truthy, or_else, js_le, value_includes, text_of,
}
use jtfp_cloudrun.Js.Text.{pad_start, print_ℕ}
use jtfp_cloudrun.Js.Objects.{Row, get, put, spread}
use jtfp_cloudrun.Base.Sort.{sort}
use jtfp_cloudrun.Store.Table.{users, orders, order_items, order_change_logs}
use jtfp_cloudrun.Store.State.{Process, get_table}
use jtfp_cloudrun.Store.Rows
use jtfp_cloudrun.Store.Rows.{insert, find_one, find_all, count, remove_where}
use jtfp_cloudrun.Repositories.Paging.{Page, filter_if, page_of, newest_first, sort_table}

-- What generateOrderNo reads of the local clock (the month from 1), and its random number.
pub record OrderStamp : Type 0 where
  pub year : ℕ
  pub month : ℕ
  pub day : ℕ
  pub hours : ℕ
  pub minutes : ℕ
  pub seconds : ℕ
  pub random : ℕ

-- generateOrderNo
unfoldable pub generate_order_no : OrderStamp → String
generate_order_no d = str_append (print_ℕ d.year) (
    str_append (pad_start d.month 2) (
      str_append (pad_start d.day 2) (
        str_append (pad_start d.hours 2) (
          str_append (pad_start d.minutes 2)
            (str_append (pad_start d.seconds 2) (pad_start d.random 4))))))

-- (r) => r.order_no === orderNo
abbrev pub has_order_no : Value → Row → Bool
has_order_no number r = strict_eq (get "order_no" r) number

-- findByOrderNo
unfoldable pub find_by_order_no : Value → String → Process → Option Row × Process
find_by_order_no number = find_one orders (has_order_no number)

-- findById
unfoldable pub find_by_id : Value → String → Process → Option Row × Process
find_by_id id = Rows.find_by_id orders id

-- The row that `create` hands to the store.
unfoldable pub order_of : Row → OrderStamp → Row
order_of fields d = put "version" (int 0) (
    put "total_amount" (or_else (get "total_amount" fields) (int 0)) (
      put "status" (or_else (get "status" fields) (str "pending"))
        (put "order_no" (or_else (get "order_no" fields) (str (generate_order_no d))) fields)))

-- create
unfoldable pub create : Row → OrderStamp → String → Process → Row × Process
create fields d now s = insert orders (order_of fields d) now s

abbrev update_found : Option Row → Row → String → Process → Bool × Process
update_found none fields now s = (false, s)
update_found (some order) fields now s = Rows.update orders (get "id" order) fields now s

-- update
unfoldable pub update : Value → Row → String → Process → Bool × Process
update number fields now s =
    let (order, s1) = find_by_order_no number now s in update_found order fields now s1

-- updateStatus, with `extra` empty where the program leaves it out
unfoldable pub update_status : Value → Value → Row → String → Process → Bool × Process
update_status number status extra now s =
    let (order, s1) = find_by_order_no number now s in
    update_found order (spread (("status", status) ∷ []) extra) now s1

abbrev remove_found : Option Row → Value → String → Process → Bool × Process
remove_found none number now s = (false, s)
remove_found (some order) number now s =
    let (n, s1) = remove_where order_items (has_order_no number) now s in
    Rows.remove orders (get "id" order) now s1

-- remove
unfoldable pub remove : Value → String → Process → Bool × Process
remove number now s =
    let (order, s1) = find_by_order_no number now s in remove_found order number now s1

-- getOrderItems
unfoldable pub get_order_items : Value → String → Process → List Row × Process
get_order_items number = find_all order_items (has_order_no number)

-- addOrderItem
unfoldable pub add_order_item : Row → String → Process → Row × Process
add_order_item item now s = insert order_items item now s

abbrev pub log_row : Value → Value → Value → Value → Value → Row
log_row number field old new operator =
    ("order_no", number)
    ∷ ("field_name", field)
    ∷ ("old_value", old)
    ∷ ("new_value", new)
    ∷ ("operator", or_else operator (str "system"))
    ∷ []

-- logChange
unfoldable pub log_change : Value → Value → Value → Value → Value → String → Process → Process
log_change number field old new operator now s =
    (insert order_change_logs (log_row number field old new operator) now s).1

-- getChangeLogs
unfoldable pub get_change_logs : Value → String → Process → List Row × Process
get_change_logs number now s =
    let (logs, s1) = find_all order_change_logs (has_order_no number) now s in
    (sort newest_first logs, s1)

-- countByStatus
unfoldable pub count_by_status : Value → String → Process → ℕ × Process
count_by_status status now s =
    if truthy status
    then count orders (λ r. strict_eq (get "status" r) status) now s
    else count orders (λ r. true) now s

-- findByInviteCode
unfoldable pub find_by_invite_code : Value → String → Process → Option Row × Process
find_by_invite_code code = find_one orders (λ r. strict_eq (get "invite_code" r) code)

pub record ListQuery : Type 0 where
  pub page : Option ℤ
  pub page_size : Option ℤ
  pub status : Value
  pub order_no : Value
  pub phone : Value
  pub start_at : Value
  pub end_at : Value
  pub user_id : Value

-- `JSON.parse` on a text that holds an object with scalar fields; `none` where it throws.
module _ (parse_json : String → Option Row) where
  abbrev phone_includes : Value → Option Row → Bool
  phone_includes kw none = false
  phone_includes kw (some addr) = value_includes (get "phone" addr) kw

  abbrev address_of : Row → Option Row
  address_of r =
      if truthy (get "address_snapshot" r)
      then parse_json (text_of (get "address_snapshot" r))
      else none

  -- The filters of `list`, in their order.
  unfoldable pub list_filters : ListQuery → List Row → List Row
  list_filters q rs =
      let rs1 = filter_if (truthy q.status) (λ r. strict_eq (get "status" r) q.status) rs in
      let rs2 =
        filter_if (truthy q.order_no) (λ r. value_includes (get "order_no" r) q.order_no) rs1 in
      let rs3 = filter_if (truthy q.user_id) (λ r. strict_eq (get "user_id" r) q.user_id) rs2 in
      let rs4 = filter_if (truthy q.phone) (λ r. phone_includes q.phone (address_of r)) rs3 in
      let rs5 =
        filter_if (truthy q.start_at)
          (λ r. truthy (get "created_at" r) && js_le q.start_at (get "created_at" r)) rs4 in
      filter_if (truthy q.end_at)
        (λ r. truthy (get "created_at" r) && js_le (get "created_at" r) q.end_at) rs5

  -- Whether no filter was asked for, so that `rows` is the table's own array.
  unfoldable pub is_unfiltered : ListQuery → Bool
  is_unfiltered q =
      not (truthy q.status)
      && not (truthy q.order_no)
      && not (truthy q.user_id)
      && not (truthy q.phone)
      && not (truthy q.start_at)
      && not (truthy q.end_at)

  abbrev field_of : String → Option Row → Value
  field_of k none = undefined
  field_of k (some r) = get k r

  -- userMap.get(order.user_id): the map keeps the last user of an identifier.
  abbrev user_of : List Row → Row → Option Row
  user_of all r =
      if truthy (get "user_id" r) then find (Rows.has_id (get "user_id" r)) (reverse all) else none

  unfoldable pub with_user : List Row → Row → Row
  with_user all r =
      let user = user_of all r in
      let addr = address_of r in
      let phone = field_of "phone" addr in
      put "address_detail" (or_else (field_of "detail" addr) null) (
        put "address_phone" (or_else phone null) (
          put "address_name" (or_else (field_of "name" addr) null) (
            put "user_phone" (or_else (or_else (field_of "phone" user) phone) null)
              (put "user_nickname" (or_else (field_of "nickname" user) null) r))))

  -- list
  unfoldable pub list : ListQuery → String → Process → Page × Process
  list q now s =
      let (all, s1) = get_table orders now s in
      let matching = list_filters q all in
      let (sorted, s2) = sort_table orders (is_unfiltered q) newest_first matching s1 in
      let (all_users, s3) = get_table users now s2 in
      (
        record {
          total = length matching;
          page_rows = map (with_user all_users) (page_of q.page q.page_size sorted);
        },
        s3,
      )
