-- ===== src/Routes/Orders/Cancel.antt =====
-- The cancellation of an order.
use jtfp_cloudrun.Base.{
  String, ◌≡◌, refl, ◌∙◌, true, false, Option, none, some, [], ◌∷◌, ◌++◌, if◌then◌else◌, arith,
  Bool-cases, Option-cases, inl, inr,
}
use jtfp_cloudrun.Base.Int.{ℤ}
use jtfp_cloudrun.Js.{Value, num, str}
use jtfp_cloudrun.Js.Objects.{Row, get, spread, put, get-put}
use jtfp_cloudrun.Store.Table.{Table, table_eq, orders, order_change_logs}
use jtfp_cloudrun.Store.State.{Process, rows, next, load_data}
use jtfp_cloudrun.Store.Rows.{update_first, updated_row, has_id, new_row}
use jtfp_cloudrun.Store.Views.{rows-load_data, next-load_data}
use jtfp_cloudrun.Store.Ids.{strict_eq-num, strict_eq-str}
use jtfp_cloudrun.Store.Finds.{find-update_own}
use jtfp_cloudrun.Store.Integrity.{IsWellFormed}
use jtfp_cloudrun.Repositories.Orders.{has_order_no, log_row, log_change, update_status}
use jtfp_cloudrun.Repositories.Orders.Laws.{
  order_at, find_by_order_no-rows, rows-update_status, next-update_status, rows-log_change,
  order_at-load_data,
}
use jtfp_cloudrun.Http.{sent, next_error, Error, Response}
use jtfp_cloudrun.Routes.Orders.{cancel_order, cancel_found, is_other_user, is_pending}

-- The order is the user's own, and still unpaid.
pub record IsCancellable (user_id : ℤ) (order : Row) : Type 0 where
  pub owner : get "user_id" order ≡ num user_id
  pub unpaid : get "status" order ≡ str "PENDING_PAYMENT"

IsCancellable-of_tests :
    (user_id : ℤ) (order : Row)
    → is_other_user user_id order ≡ false
    → is_pending order ≡ true
    → IsCancellable user_id order
IsCancellable-of_tests user_id order h k = record {
  owner = (strict_eq-num (get "user_id" order) user_id).0 (ground arith);
  unpaid = strict_eq-str (get "status" order) "PENDING_PAYMENT" k;
}

-- The fields that a cancellation writes.
cancelled : String → Row → Row
cancelled now r = updated_row (("status", str "CANCELLED") ∷ []) now r

order_no-cancelled :
    (number : Value) (now : String) (r : Row)
    → has_order_no number (cancelled now r) ≡ has_order_no number r
unfolding cancelled updated_row spread
order_no-cancelled number now r = simp get-put

status-cancelled : (now : String) (r : Row) → get "status" (cancelled now r) ≡ str "CANCELLED"
unfolding cancelled updated_row spread
status-cancelled now r = simp get-put

module _ (order_no now : String) (user_id : ℤ) where
  cancel_order-rows :
      (s : Process)
      → cancel_order order_no now user_id s
        ≡ cancel_found (order_at (str order_no) s) order_no now user_id (load_data now s)
  unfolding cancel_order
  cancel_order-rows s = rw find_by_order_no-rows

  cancel_found-sent :
      (o : Option Row) (s : Process) (r : Response)
      → (cancel_found o order_no now user_id s).0 ≡ sent r
      → (order : Row) × (o ≡ some order) × IsCancellable user_id order
  cancel_found-sent none s r h = absurd (cc)
  cancel_found-sent (some order) s r h = elim (Bool-cases (is_other_user user_id order)) [
    | inl e ↦ absurd (ground (arith, e))
    | inr e ↦ elim (Bool-cases (is_pending order)) [
      | inl k ↦ (order, refl, IsCancellable-of_tests user_id order e k)
      | inr k ↦ absurd (ground (arith, e, k))
    ]
  ]

  cancel_found-refused :
      (o : Option Row) (s : Process) (e : Error) (t : Table)
      → (cancel_found o order_no now user_id s).0 ≡ next_error e
      → rows t (cancel_found o order_no now user_id s).1 ≡ rows t s
  cancel_found-refused none s e t h = refl
  cancel_found-refused (some order) s e t h = ground arith

  -- A request that is answered, and not passed on as an error, was for an order that is stored,
  -- belongs to the user and is unpaid.
  pub cancel_order-sent :
      (s : Process) (r : Response)
      → (cancel_order order_no now user_id s).0 ≡ sent r
      → (order : Row) × (order_at (str order_no) s ≡ some order) × IsCancellable user_id order
  cancel_order-sent s r h =
      cancel_found-sent (order_at (str order_no) s) (load_data now s) r (rw cancel_order-rows at h)

  -- A request that ends in an error leaves every table as it was.
  pub cancel_order-refused :
      (s : Process) (e : Error) (t : Table)
      → (cancel_order order_no now user_id s).0 ≡ next_error e
      → rows t (cancel_order order_no now user_id s).1 ≡ rows t s
  cancel_order-refused s e t h = rw cancel_order-rows (
      cancel_found-refused (order_at (str order_no) s) (load_data now s) e t
        (rw cancel_order-rows at h)
      ∙ rows-load_data t now s)

  -- The process after a cancellation.
  cancelled_process : Row → Process → Process
  cancelled_process order s =
      log_change (str order_no) (str "status") (get "status" order) (str "CANCELLED") (str "user")
        now (update_status (str order_no) (str "CANCELLED") [] now s).1

  cancel_found-state :
      (order : Row) (s : Process)
      → IsCancellable user_id order
      → (cancel_found (some order) order_no now user_id s).1 ≡ cancelled_process order s
  unfolding cancelled_process
  cancel_found-state order s c = rw (not_other, c.unpaid) refl
    where
      not_other : is_other_user user_id order ≡ false
      not_other = rw c.owner (ground arith)

  rows-cancelled_process :
      (order : Row) (s : Process) (t : Table)
      → order_at (str order_no) s ≡ some order
      → rows t (cancelled_process order s) ≡ (
          if table_eq order_change_logs t
          then rows order_change_logs s
            ++ new_row
                (log_row
                  (str order_no)
                  (str "status")
                  (get "status" order)
                  (str "CANCELLED")
                  (str "user"))
                (next order_change_logs s)
                now
              ∷ []
          else if table_eq orders t
          then update_first (has_id (get "id" order)) (cancelled now) (rows orders s)
          else rows t s)
  unfolding cancelled_process cancelled spread table_eq
  rows-cancelled_process order s t h =
      rw (rows-log_change, next-update_status)
        (rw (
          rows-update_status (str order_no) now s order_change_logs (str "CANCELLED") [] order h,
          rows-update_status (str order_no) now s t (str "CANCELLED") [] order h,
        ))

  -- In a well-formed process, an unpaid order of the user is cancelled: its order number then finds
  -- the order with the status CANCELLED and the time of the update, and all else as it was; and
  -- the change log has one row more, from the old status to CANCELLED by the user.
  pub cancel_order-cancels :
      (s : Process) (order : Row)
      → IsWellFormed s
      → order_at (str order_no) s ≡ some order
      → IsCancellable user_id order
      → (order_at (str order_no) (cancel_order order_no now user_id s).1
          ≡ some (put "updated_at" (str now) (put "status" (str "CANCELLED") order)))
        × (rows order_change_logs (cancel_order order_no now user_id s).1
            ≡ rows order_change_logs s
              ++ new_row
                  (log_row
                    (str order_no)
                    (str "status")
                    (str "PENDING_PAYMENT")
                    (str "CANCELLED")
                    (str "user"))
                  (next order_change_logs s)
                  now
                ∷ [])
  unfolding table_eq
  cancel_order-cancels s order w h c =
      rw (cancel_order-rows, h, cancel_found-state order (load_data now s) c)
        (
          rw
              (
                rows-cancelled_process order (load_data now s) orders (rw order_at-load_data h),
                rows-load_data,
              )
              (unfold cancelled updated_row spread in
                find-update_own (next orders s) (has_order_no (str order_no)) (cancelled now)
                  (rows orders s) order (order_no-cancelled (str order_no) now) (w.ids orders).0
                  (w.ids orders).1 h),
          rw (
            rows-cancelled_process order (load_data now s) order_change_logs
                (rw order_at-load_data h),
            rows-load_data,
            next-load_data,
            c.unpaid,
          ),
        )

  cancel_found-keeps :
      (order : Row) (s : Process) (t : Table)
      → order_at (str order_no) s ≡ some order
      → table_eq orders t ≡ false
      → table_eq order_change_logs t ≡ false
      → rows t (cancel_found (some order) order_no now user_id s).1 ≡ rows t s
  cancel_found-keeps order s t e h k = elim (Bool-cases (is_other_user user_id order)) [
    | inl o ↦ rw o
    | inr o ↦ elim (Bool-cases (is_pending order)) [
      | inl p ↦
          rw (cancel_found-state order s (IsCancellable-of_tests user_id order o p))
            (rw (rows-cancelled_process order s t e, h, k))
      | inr p ↦ rw (o, p)
    ]
  ]

  -- A cancellation, whatever its outcome, writes to no table but those of orders and change logs.
  pub cancel_order-keeps :
      (s : Process) (t : Table)
      → table_eq orders t ≡ false
      → table_eq order_change_logs t ≡ false
      → rows t (cancel_order order_no now user_id s).1 ≡ rows t s
  cancel_order-keeps s t h k = elim (Option-cases (order_at (str order_no) s)) [
    | inl e ↦ rw (cancel_order-rows, e) (rows-load_data t now s)
    | inr (order, e) ↦
        rw (cancel_order-rows, e)
          (cancel_found-keeps order (load_data now s) t (rw order_at-load_data e) h k
            ∙ rows-load_data t now s)
  ]
