-- ===== src/Routes/AdminOrders/Shown.antt =====
-- The list and the detail of src/routes/api_v1/admin/orders.ts: orders with their status in Chinese
-- and their receiver. A number of the query is what parseInt gives, `none` for NaN.
use Prim.Native.String.{◌++◌ as str_append}
use jtfp_cloudrun.Base.{String, Option, none, some, [], ◌∷◌, map, if◌then◌else◌}
use jtfp_cloudrun.Base.Int.{ℤ}
use jtfp_cloudrun.Js.{Value, undefined, str, truthy, or_else, nullish, to_text}
use jtfp_cloudrun.Js.Objects.{Row, get, put}
use jtfp_cloudrun.Http.{sent, Handler, json}
use jtfp_cloudrun.Repositories.Orders.{
  ListQuery, list, find_by_order_no, get_order_items, get_change_logs,
}
use jtfp_cloudrun.Routes.AdminOrders.{not_found}
use jtfp_cloudrun.Routes.MyOrders.{at_most_hundred, page_body}

abbrev pub status_map_cn : Row
status_map_cn =
    ("PENDING_FREIGHT", str "待处理")
    ∷ ("WAIT_SHIP", str "待处理")
    ∷ ("SHIPPED", str "已发货")
    ∷ ("DELIVERED", str "已送达")
    ∷ ("COMPLETED", str "已完成")
    ∷ ("CLOSED_UNPAID", str "已关闭")
    ∷ ("CANCELLED", str "已取消")
    ∷ []

-- statusMapCn[status] || status
unfoldable pub status_cn : Value → Value
status_cn status = or_else (get (to_text status) status_map_cn) status

pub record OrderListQuery : Type 0 where
  pub status : Value
  pub order_no : Value
  pub phone : Value
  pub start_date : Value
  pub end_date : Value
  pub start_at : Value
  pub end_at : Value

abbrev day_or_undefined : Value → String → Value
day_or_undefined day time = if truthy day then str (str_append (to_text day) time) else undefined

-- normalizeRange
unfoldable pub normalize_range : OrderListQuery → Value × Value
normalize_range query = (
  nullish query.start_at (day_or_undefined query.start_date " 00:00:00"),
  nullish query.end_at (day_or_undefined query.end_date " 23:59:59"),
)

abbrev or_empty : Option Row → Row
or_empty none = []
or_empty (some r) = r

-- `JSON.parse` on a text that holds an object with scalar fields; `none` where it throws.
module _ (parse_json : String → Option Row) where
  -- safeJsonParse, on a field's value
  unfoldable pub safe_json_parse : Value → Option Row
  safe_json_parse (str text) = parse_json text
  safe_json_parse v = none

  -- addr.detail || addr.address
  abbrev street : Row → Value
  street addr = or_else (get "detail" addr) (get "address" addr)

  unfoldable pub formatted : Row → Row
  formatted o =
      let addr = or_empty (safe_json_parse (get "address_snapshot" o)) in
      put "receiver_address" (or_else (or_else (street addr) (get "address_detail" o)) (str "")) (
        put "receiver_phone" (or_else (or_else (get "phone" addr) (get "address_phone" o)) (str ""))
          (put "receiver_name" (or_else (or_else (get "name" addr) (get "address_name" o)) (str ""))
            (put "status_cn" (status_cn (get "status" o)) o)))

  -- GET /
  unfoldable pub get_orders : Option ℤ → Option ℤ → OrderListQuery → String → Handler
  get_orders page size query now s =
      let range = normalize_range query in
      let q : ListQuery = record {
        page = page;
        page_size = at_most_hundred size;
        status = query.status;
        order_no = query.order_no;
        phone = query.phone;
        start_at = range.0;
        end_at = range.1;
        user_id = undefined;
      } in
      let (result, s1) = list parse_json q now s in
      (
        sent (
            json (
              page_body "orders" page (at_most_hundred size)
                (record result { page_rows = map formatted result.page_rows }))),
        s1,
      )

  unfoldable pub detailed : Row → Row
  detailed order =
      let addr = or_empty (safe_json_parse (get "address_snapshot" order)) in
      put "receiver_address" (or_else (street addr) (str "")) (
        put "receiver_phone" (or_else (get "phone" addr) (str "")) (
          put "receiver_name" (or_else (get "name" addr) (str ""))
            (put "status_cn" (status_cn (get "status" order)) order)))

  abbrev show_found : Option Row → String → String → Handler
  show_found none order_no now s = (not_found, s)
  show_found (some order) order_no now s =
      let (items, s1) = get_order_items (str order_no) now s in
      let (logs, s2) = get_change_logs (str order_no) now s1 in
      (
        sent (
            json (record {
              fields = [];
              objects = ("order", detailed order) ∷ [];
              lists = ("items", items) ∷ ("logs", logs) ∷ [];
            })),
        s2,
      )

  -- GET /:orderNo
  unfoldable pub get_order : String → String → Handler
  get_order order_no now s =
      let (order, s1) = find_by_order_no (str order_no) now s in show_found order order_no now s1
