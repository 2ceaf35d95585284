-- ===== src/Routes/Payment/Laws.antt =====
-- What a payment notification does to the orders and their change logs.
use jtfp_cloudrun.Base.{
  String, ◌≡◌, refl, ◌∙◌, Bool, false, not, ◌&&◌, Option, none, some, [], ◌∷◌, ◌++◌, Bool-cases,
  inl, inr,
}
use jtfp_cloudrun.Js.{str, strict_eq}
use jtfp_cloudrun.Js.Objects.{Row, get}
use jtfp_cloudrun.Store.Table.{Table, table_eq, orders, order_change_logs}
use jtfp_cloudrun.Store.State.{Process, rows, next, load_data}
use jtfp_cloudrun.Store.Rows.{new_row}
use jtfp_cloudrun.Store.Views.{rows-load_data, next-load_data}
use jtfp_cloudrun.Repositories.Orders.{log_row}
use jtfp_cloudrun.Repositories.Orders.Laws.{
  order_at, find_by_order_no-rows, rows-update_status-none, next-update_status, rows-log_change,
  order_at-load_data,
}
use jtfp_cloudrun.Routes.Payment.{
  Decryption, opens, fails, Notification, notify, handle_body, settle_payment, record_payment,
  record_found, is_forged, paid_fields,
}

abbrev is_success_event : Option Row → Bool
is_success_event none = false
is_success_event (some body) = strict_eq (get "event_type" body) (str "TRANSACTION.SUCCESS")

abbrev is_paid : Option Decryption → Bool
is_paid (some (opens (some pay))) = strict_eq (get "trade_state" pay) (str "SUCCESS")
is_paid _ = false

-- The notification is not forged, reports a successful transaction, and holds a paid resource.
unfoldable pub reports_payment : Notification → Bool
reports_payment n = not (is_forged n.signature) && (is_success_event n.body && is_paid n.payment)

settle-unpaid :
    (p : Option Decryption) (now : String) (s : Process) (t : Table)
    → is_paid p ≡ false
    → rows t (settle_payment p now s).1 ≡ rows t s
settle-unpaid none now s t h = refl
settle-unpaid (some (fails m)) now s t h = refl
settle-unpaid (some (opens none)) now s t h = refl
settle-unpaid (some (opens (some pay))) now s t h = rw h

handle-unreported :
    (b : Option Row) (n : Notification) (now : String) (s : Process) (t : Table)
    → (is_success_event b && is_paid n.payment) ≡ false
    → rows t (handle_body b n now s).1 ≡ rows t s
handle-unreported none n now s t h = refl
handle-unreported (some body) n now s t h =
    elim (Bool-cases (strict_eq (get "event_type" body) (str "TRANSACTION.SUCCESS"))) [
      | inl e ↦ rw e (settle-unpaid n.payment now s t (rw e at h))
      | inr e ↦ rw e
    ]

-- A notification that is forged, whose body does not parse or reports no successful transaction, or
-- whose resource is missing, cannot be decrypted or is unpaid, leaves every table as it was.
pub notify-unreported :
    (n : Notification) (now : String) (s : Process) (t : Table)
    → reports_payment n ≡ false
    → rows t (notify n now s).1 ≡ rows t s
unfolding notify reports_payment
notify-unreported n now s t h = elim (Bool-cases (is_forged n.signature)) [
  | inl e ↦ rw e
  | inr e ↦ rw e (handle-unreported n.body n now s t (rw e at h))
]

module _ (pay : Row) (now : String) (s : Process) (order : Row)
    (known : order_at (get "out_trade_no" pay) s ≡ some order) where
  record_payment-found :
      record_payment pay now s ≡ record_found (some order) pay now (load_data now s)
  unfolding record_payment
  record_payment-found = rw (find_by_order_no-rows, known)

  -- Where the payment's `order_no` finds no order, as it does where the payment has no such field,
  -- the order that its `out_trade_no` names is not updated, although it was found and paid for; and
  -- the change to PENDING_FREIGHT is logged all the same, under that `order_no`.
  pub record_payment-misses :
      order_at (get "order_no" pay) s ≡ none
      → (rows orders (record_payment pay now s) ≡ rows orders s)
        × (rows order_change_logs (record_payment pay now s)
            ≡ rows order_change_logs s
              ++ new_row
                  (log_row
                    (get "order_no" pay)
                    (str "status")
                    (get "status" order)
                    (str "PENDING_FREIGHT")
                    (str "wechat_notify"))
                  (next order_change_logs s)
                  now
                ∷ [])
  unfolding table_eq
  record_payment-misses h =
      let none_loaded : order_at (get "order_no" pay) (load_data now s) ≡ none =
        rw order_at-load_data h in
      let same = λ (u : Table).
        rows-update_status-none (get "order_no" pay) now (load_data now s) u (str "PENDING_FREIGHT")
          (paid_fields now) none_loaded
        ∙ rows-load_data u now s in
      rw record_payment-found (
        rw rows-log_change (same orders),
        rw (rows-log_change, next-update_status, next-load_data, same order_change_logs),
      )
