-- ===== src/Tests/RouteRuns.antt =====
-- Requests to the small shop.
use jtfp_cloudrun.Base.{
  String, ◌≡◌, ◌≢◌, refl, true, false, some, [], ◌∷◌, ◌++◌, take, arith, str_eq, eq_iff,
}
use jtfp_cloudrun.Base.Int.{pos}
use jtfp_cloudrun.Js.{str, int, bool}
use jtfp_cloudrun.Js.Objects.{Row, get, put}
use jtfp_cloudrun.Store.Table.{orders, product_skus, products, order_change_logs, table_eq}
use jtfp_cloudrun.Store.State.{rows, next, state_ops}
use jtfp_cloudrun.Store.Rows.{new_row, row_ops}
use jtfp_cloudrun.Repositories.Orders.{log_row, find_by_order_no}
use jtfp_cloudrun.Repositories.Orders.Laws.{order_at}
use jtfp_cloudrun.Http.{Handler, app_error, json, fields_only}
use jtfp_cloudrun.Http.Guards.{bearer_token}
use jtfp_cloudrun.Routes.Orders.{cancel_order}
use jtfp_cloudrun.Routes.Orders.Cancel.{
  IsCancellable, cancel_order-sent, cancel_order-refused, cancel_order-cancels,
}
use jtfp_cloudrun.Routes.Payment.{Notification, opens, notify, record_payment}
use jtfp_cloudrun.Routes.Payment.Laws.{reports_payment, notify-unreported, record_payment-misses}
use jtfp_cloudrun.Routes.AdminCategories.{delete_category}
use jtfp_cloudrun.Base.Sort.{sort}
use jtfp_cloudrun.Repositories.Products.{product_order}
use jtfp_cloudrun.Routes.SkuLibrary.{sku_page, get_sku_library}
use jtfp_cloudrun.Routes.SkuLibrary.Laws.{skus_by_product, get_sku_library-first_hundred}
use jtfp_cloudrun.Tests.Data.{shop, shop-IsWellFormed, order_1}

abbrev day : String
day = "2024-05-01"

all : Unit {0}
unfolding state_ops row_ops get put table_eq cancel_order find_by_order_no bearer_token
    reports_payment
all = tt

owned : IsCancellable (pos 7) order_1
unfolding all
owned = record { owner = refl; unpaid = refl }

cancel_order-sent_example :
    (order : Row) × (order_at (str "JT1") shop ≡ some order) × IsCancellable (pos 7) order
unfolding all
cancel_order-sent_example =
    cancel_order-sent "JT1" day (pos 7) shop
      (json (fields_only (("success", bool true) ∷ ("message", str "订单已取消") ∷ []))) refl

cancel_order-refused_example :
    rows orders (cancel_order "JT1" day (pos 8) shop).1 ≡ rows orders shop
unfolding all
cancel_order-refused_example =
    cancel_order-refused "JT1" day (pos 8) shop (app_error 403 "FORBIDDEN" "无权操作此订单") orders refl

cancel_order-cancels_example :
    (order_at (str "JT1") (cancel_order "JT1" day (pos 7) shop).1
      ≡ some (put "updated_at" (str day) (put "status" (str "CANCELLED") order_1)))
    × (rows order_change_logs (cancel_order "JT1" day (pos 7) shop).1
        ≡ rows order_change_logs shop
          ++ new_row
              (log_row
                (str "JT1")
                (str "status")
                (str "PENDING_PAYMENT")
                (str "CANCELLED")
                (str "user"))
              (next order_change_logs shop)
              day
            ∷ [])
unfolding all
cancel_order-cancels_example =
    cancel_order-cancels "JT1" day (pos 7) shop order_1 shop-IsWellFormed refl owned

abbrev payment : Row
payment = ("out_trade_no", str "JT1") ∷ ("trade_state", str "SUCCESS") ∷ []

abbrev named_payment : Row
named_payment = ("order_no", str "JT1") ∷ payment

abbrev forged : Notification
forged = record {
  signature = some false;
  body = some (("event_type", str "TRANSACTION.SUCCESS") ∷ []);
  parse_error = "";
  payment = some (opens (some payment));
}

notify-unreported_example : rows orders (notify forged day shop).1 ≡ rows orders shop
unfolding all
notify-unreported_example = notify-unreported forged day shop orders refl

record_payment-misses_example :
    (rows orders (record_payment payment day shop) ≡ rows orders shop)
    × (rows order_change_logs (record_payment payment day shop)
        ≡ rows order_change_logs shop
          ++ new_row
              (log_row
                (get "order_no" payment)
                (str "status")
                (get "status" order_1)
                (str "PENDING_FREIGHT")
                (str "wechat_notify"))
              (next order_change_logs shop)
              day
            ∷ [])
unfolding all
record_payment-misses_example = record_payment-misses payment day shop order_1 refl refl

abbrev deletes : Handler
deletes = delete_category (int 2) day

text_ne : (a b : String) → str_eq a b ≡ false → a ≢ b
text_ne a b e h = ground (arith, e, (eq_iff a b).1 h)

get_sku_library-first_hundred_example :
    (get_sku_library (λ t. t) (some (pos 1)) (some (pos 20)) day shop).0
    ≡ sku_page (some (pos 1)) (some (pos 20)) (
        skus_by_product
          (take 100 (sort product_order (rows products shop)))
          (rows product_skus shop))
get_sku_library-first_hundred_example =
    get_sku_library-first_hundred (λ t. t) day shop (some (pos 1)) (some (pos 20))
