-- ===== src/Routes/MyOrders.antt =====
-- src/routes/api_v1/me/orders.ts, behind requireUserAuth. A number of the query is what parseInt
-- gives, `none` for NaN.
use jtfp_cloudrun.Base.{ℕ, String, true, not, Option, none, some, [], ◌∷◌, if◌then◌else◌}
use jtfp_cloudrun.Base.Int.{ℤ, pos, ltb_ℤ}
use jtfp_cloudrun.Js.{Value, undefined, nan, num, str, int, bool}
use jtfp_cloudrun.Js.Objects.{Row}
use jtfp_cloudrun.Http.{Reply, sent, Handler, Body, json, status_json, code_message, fields_only}
use jtfp_cloudrun.Repositories.Paging.{Page, min_ℤ}
use jtfp_cloudrun.Repositories.Orders.{
  ListQuery, list, find_by_order_no, get_order_items, update_status,
}
use jtfp_cloudrun.Routes.Orders.{detail, is_other_user, is_pending}

-- Math.max(n, 1) and Math.min(n, 100)
abbrev pub at_least_one : Option ℤ → Option ℤ
at_least_one none = none
at_least_one (some n) = some (if ltb_ℤ n (pos 1) then pos 1 else n)

abbrev pub at_most_hundred : Option ℤ → Option ℤ
at_most_hundred none = none
at_most_hundred (some n) = some (min_ℤ n (pos 100))

abbrev pub number_value : Option ℤ → Value
number_value none = nan
number_value (some n) = num n

abbrev pub page_body : String → Option ℤ → Option ℤ → Page → Body
page_body name page size result = record {
  fields =
      ("total", int result.total)
      ∷ ("page", number_value page)
      ∷ ("pageSize", number_value size)
      ∷ [];
  objects = [];
  lists = (name, result.page_rows) ∷ [];
}

-- The query of GET /: the user's own orders, with a status if one is asked for.
abbrev pub my_query : Option ℤ → Option ℤ → Value → ℤ → ListQuery
my_query page size status user_id = record {
  page = at_least_one page;
  page_size = at_most_hundred size;
  status = status;
  order_no = undefined;
  phone = undefined;
  start_at = undefined;
  end_at = undefined;
  user_id = num user_id;
}

-- GET /
unfoldable pub get_orders :
    (String → Option Row) → Option ℤ → Option ℤ → Value → String → ℤ → Handler
get_orders parse_json page size status now user_id s =
    let (result, s1) = list parse_json (my_query page size status user_id) now s in
    (sent (json (page_body "orders" (at_least_one page) (at_most_hundred size) result)), s1)

abbrev refuse : ℕ → String → String → Reply
refuse status code message = sent (status_json status (code_message code message))

abbrev show_found : Option Row → String → String → ℤ → Handler
show_found none order_no now user_id s = (refuse 404 "NOT_FOUND" "订单不存在", s)
show_found (some order) order_no now user_id s =
    if is_other_user user_id order
    then (refuse 403 "FORBIDDEN" "无权访问", s)
    else (let (items, s1) = get_order_items (str order_no) now s in
        (sent (json (detail order items)), s1))

-- GET /:orderNo
unfoldable pub get_order : String → String → ℤ → Handler
get_order order_no now user_id s =
    let (order, s1) = find_by_order_no (str order_no) now s in
    show_found order order_no now user_id s1

abbrev cancel_found : Option Row → String → String → ℤ → Handler
cancel_found none order_no now user_id s = (refuse 404 "NOT_FOUND" "订单不存在", s)
cancel_found (some order) order_no now user_id s =
    if is_other_user user_id order
    then (refuse 403 "FORBIDDEN" "无权操作", s)
    else if not (is_pending order)
    then (refuse 400 "CANNOT_CANCEL" "当前状态不可取消", s)
    else (
      sent (json (fields_only (("success", bool true) ∷ []))),
      (update_status (str order_no) (str "CANCELLED") [] now s).1,
    )

-- POST /:orderNo/cancel
unfoldable pub cancel_order : String → String → ℤ → Handler
cancel_order order_no now user_id s =
    let (order, s1) = find_by_order_no (str order_no) now s in
    cancel_found order order_no now user_id s1
