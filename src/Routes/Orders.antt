-- ===== src/Routes/Orders.antt =====
-- src/routes/api_v1/orders.ts, and src/routes/orders.ts, whose creation is the same.
pub mod Cancel
use jtfp_cloudrun.Base.{String, Bool, true, not, Option, none, some, List, [], ◌∷◌, if◌then◌else◌}
use jtfp_cloudrun.Base.Int.{ℤ}
use jtfp_cloudrun.Js.{num, str, int, bool, strict_eq}
use jtfp_cloudrun.Js.Objects.{Row, get}
use jtfp_cloudrun.Http.{
  Parsed, parsed, rejected, Reply, sent, next_error, zod_error, app_error, Handler, Body, json,
  fields_only,
}
use jtfp_cloudrun.Repositories.Orders.{
  OrderStamp, create, find_by_order_no, get_order_items, update_status, log_change,
}

-- The row of a new order. `address_snapshot` is the JSON text of the body's address, or undefined.
abbrev pub new_order : ℤ → Row → Row
new_order user_id body =
    ("user_id", num user_id)
    ∷ ("property_id", get "propertyId" body)
    ∷ ("status", str "PENDING_PAYMENT")
    ∷ ("total_amount", int 0)
    ∷ ("address_snapshot", get "addressSnapshot" body)
    ∷ ("buyer_note", get "buyerNote" body)
    ∷ ("invite_code", get "inviteCode" body)
    ∷ []

abbrev pub order_summary : Row → Row
order_summary order =
    ("order_no", get "order_no" order)
    ∷ ("status", get "status" order)
    ∷ ("total_amount", get "total_amount" order)
    ∷ []

-- POST /, for a user; `body` is what CreateOrderReq.parse gives.
unfoldable pub post_order : Parsed → OrderStamp → String → ℤ → Handler
post_order (rejected issue) stamp now user_id s = (next_error (zod_error issue), s)
post_order (parsed body) stamp now user_id s =
    let (order, s1) = create (new_order user_id body) stamp now s in
    (sent (json (fields_only (order_summary order))), s1)

abbrev not_found : Reply
not_found = next_error (app_error 404 "ORDER_NOT_FOUND" "订单不存在")

abbrev status_reply : Option Row → Reply
status_reply none = not_found
status_reply (some order) = sent (json (fields_only (order_summary order)))

-- GET /:orderNo/status of src/routes/orders.ts: no check of the owner
unfoldable pub get_status : String → String → ℤ → Handler
get_status order_no now user_id s =
    let (order, s1) = find_by_order_no (str order_no) now s in (status_reply order, s1)

-- order.user_id !== userId
abbrev pub is_other_user : ℤ → Row → Bool
is_other_user user_id order = not (strict_eq (get "user_id" order) (num user_id))

abbrev pub detail : Row → List Row → Body
detail order items = record {
  fields = [];
  objects = ("order", order) ∷ [];
  lists = ("items", items) ∷ [];
}

abbrev show_found : Option Row → String → String → ℤ → Handler
show_found none order_no now user_id s = (not_found, s)
show_found (some order) order_no now user_id s =
    if is_other_user user_id order
    then (next_error (app_error 403 "FORBIDDEN" "无权访问此订单"), s)
    else (let (items, s1) = get_order_items (str order_no) now s in
        (sent (json (detail order items)), s1))

-- GET /:orderNo
unfoldable pub get_order : String → String → ℤ → Handler
get_order order_no now user_id s =
    let (order, s1) = find_by_order_no (str order_no) now s in
    show_found order order_no now user_id s1

abbrev pub is_pending : Row → Bool
is_pending order = strict_eq (get "status" order) (str "PENDING_PAYMENT")

abbrev cancel_found : Option Row → String → String → ℤ → Handler
cancel_found none order_no now user_id s = (not_found, s)
cancel_found (some order) order_no now user_id s =
    if is_other_user user_id order
    then (next_error (app_error 403 "FORBIDDEN" "无权操作此订单"), s)
    else if not (is_pending order)
    then (next_error (app_error 400 "CANNOT_CANCEL" "当前状态不可取消"), s)
    else (let s1 = (update_status (str order_no) (str "CANCELLED") [] now s).1 in
        let s2 =
          log_change (str order_no) (str "status") (get "status" order) (str "CANCELLED")
            (str "user") now s1 in
        (sent (json (fields_only (("success", bool true) ∷ ("message", str "订单已取消") ∷ []))), s2))

-- POST /:orderNo/cancel
unfoldable pub cancel_order : String → String → ℤ → Handler
cancel_order order_no now user_id s =
    let (order, s1) = find_by_order_no (str order_no) now s in
    cancel_found order order_no now user_id s1
