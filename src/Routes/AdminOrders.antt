-- ===== src/Routes/AdminOrders.antt =====
-- src/routes/api_v1/admin/orders.ts, behind requireAdminToken: status, remark, deletion and the
-- summary; the child has the list and the detail. The body's fields are values of any kind: no schema checks them.
pub mod Shown
use jtfp_cloudrun.Base.{◌+◌, String, true, Option, none, some, [], ◌∷◌}
use jtfp_cloudrun.Js.{Value, undefined, str, int, bool, or_else}
use jtfp_cloudrun.Js.Objects.{Row, get}
use jtfp_cloudrun.Http.{Reply, sent, Handler, json, status_json, error_only, fields_only}
use jtfp_cloudrun.Repositories.Orders.{
  find_by_order_no, update_status, update, remove, log_change, count_by_status,
}

abbrev pub not_found : Reply
not_found = sent (status_json 404 (error_only "订单不存在"))

abbrev success : String → Reply
success message = sent (json (fields_only (("success", bool true) ∷ ("message", str message) ∷ [])))

abbrev set_status_found : Option Row → String → Value → String → Handler
set_status_found none order_no status now s = (not_found, s)
set_status_found (some order) order_no status now s =
    let s1 = (update_status (str order_no) status [] now s).1 in
    let s2 =
      log_change (str order_no) (str "status") (get "status" order) status (str "admin") now s1 in
    (success "订单状态更新成功", s2)

-- PUT /:orderNo/status
unfoldable pub put_status : String → Value → String → Handler
put_status order_no status now s =
    let (order, s1) = find_by_order_no (str order_no) now s in
    set_status_found order order_no status now s1

abbrev set_remark_found : Option Row → String → Value → String → Handler
set_remark_found none order_no remark now s = (not_found, s)
set_remark_found (some order) order_no remark now s =
    let s1 = (update (str order_no) (("remark", remark) ∷ []) now s).1 in
    let s2 =
      log_change (str order_no) (str "remark") (or_else (get "remark" order) (str ""))
        (or_else remark (str "")) (str "admin") now s1 in
    (success "备注更新成功", s2)

-- PUT /:orderNo/remark
unfoldable pub put_remark : String → Value → String → Handler
put_remark order_no remark now s =
    let (order, s1) = find_by_order_no (str order_no) now s in
    set_remark_found order order_no remark now s1

abbrev delete_found : Option Row → String → String → Handler
delete_found none order_no now s = (not_found, s)
delete_found (some order) order_no now s = (success "订单删除成功", (remove (str order_no) now s).1)

-- DELETE /:orderNo
unfoldable pub delete_order : String → String → Handler
delete_order order_no now s =
    let (order, s1) = find_by_order_no (str order_no) now s in delete_found order order_no now s1

-- GET /stats/summary
unfoldable pub get_summary : String → Handler
get_summary now s =
    let (total, s1) = count_by_status undefined now s in
    let (unpaid, s2) = count_by_status (str "PENDING_PAYMENT") now s1 in
    let (freight, s3) = count_by_status (str "PENDING_FREIGHT") now s2 in
    let (waiting, s4) = count_by_status (str "WAIT_SHIP") now s3 in
    let (shipped, s5) = count_by_status (str "SHIPPED") now s4 in
    let (completed, s6) = count_by_status (str "COMPLETED") now s5 in
    (
      sent (
          json (
            fields_only (
              ("total", int total)
              ∷ ("pending", int (unpaid + freight + waiting))
              ∷ ("shipped", int shipped)
              ∷ ("completed", int completed)
              ∷ []))),
      s6,
    )
