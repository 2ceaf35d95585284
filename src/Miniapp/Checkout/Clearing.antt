-- ===== src/Miniapp/Checkout/Clearing.antt =====
-- When the checkout empties the cart.
use jtfp_cloudrun.Base.{
  ℕ, String, ◌≡◌, refl, Bool, true, false, not, ◌&&◌, Option, none, some, ◌==◌, length,
  if◌then◌else◌, str_eq,
}
use jtfp_cloudrun.Js.Objects.{Row}
use jtfp_cloudrun.Flcode.Upload.{is_code}
use jtfp_cloudrun.Miniapp.Cart.{clear_cart}
use jtfp_cloudrun.Miniapp.Checkout.{
  Stage, idle, logging_in, creating, prepaying, paying, Load, View, emit, switches_to_cart,
  shows_toast, Event, shows, details, details_fail, taps_address, taps_order, logged_in, created,
  prepaid, paid, fails, asks_prepay, goes_to_order, failed, on_login, on_created, on_prepaid,
  clear_unless, on_paid, on_failure, is_welfare_query, load_cart, load_data, load_welfare,
  on_detail, on_detail_failure, submission, submit_to, submit_order, step,
}

-- Whether an ordinary order is being paid for.
abbrev pub ordinary : Stage → Bool
ordinary (paying s n) = not s.welfare
ordinary _ = false

-- Whether an event is the payment of an ordinary order.
abbrev pub pays_ordinary : Stage → Event → Bool
pays_ordinary st paid = ordinary st
pays_ordinary st _ = false

if-storage :
    (b : Bool) (u v w : View)
    → v.storage ≡ u.storage
    → w.storage ≡ u.storage
    → (if b then v else w).storage ≡ u.storage
if-storage true u v w p q = p
if-storage false u v w p q = q

failed-storage : (m n : String) (v : View) → (failed m n v).storage ≡ v.storage
unfolding failed
failed-storage m n v =
    let ended =
      emit (shows_toast (if str_eq m "" then "下单/支付失败" else m))
        (record v { submitting = false; stage = idle }) in
    if-storage (str_eq n "") v ended (emit (goes_to_order n) ended) refl refl

on_login-storage : (st : Stage) (v : View) → (on_login st v).storage ≡ v.storage
on_login-storage (logging_in x) v = refl
on_login-storage idle v = refl
on_login-storage (creating x) v = refl
on_login-storage (prepaying x n) v = refl
on_login-storage (paying x n) v = refl

on_created-storage :
    (st : Stage) (n m : String) (v : View) → (on_created st n m v).storage ≡ v.storage
on_created-storage (creating x) n m v =
    let no = if str_eq n "" then m else n in
    if-storage (str_eq no "") v (failed "创建订单失败：缺少订单号" "" v)
      (emit (asks_prepay no) (record v { stage = prepaying x no })) (failed-storage _ _ v) refl
on_created-storage idle n m v = refl
on_created-storage (logging_in x) n m v = refl
on_created-storage (prepaying x k) n m v = refl
on_created-storage (paying x k) n m v = refl

on_prepaid-storage : (st : Stage) (r : Row) (v : View) → (on_prepaid st r v).storage ≡ v.storage
on_prepaid-storage (prepaying x n) r v = refl
on_prepaid-storage idle r v = refl
on_prepaid-storage (logging_in x) r v = refl
on_prepaid-storage (creating x) r v = refl
on_prepaid-storage (paying x n) r v = refl

on_failure-storage : (st : Stage) (m : String) (v : View) → (on_failure st m v).storage ≡ v.storage
on_failure-storage idle m v = refl
on_failure-storage (logging_in x) m v = failed-storage m "" v
on_failure-storage (creating x) m v = failed-storage m "" v
on_failure-storage (prepaying x n) m v = failed-storage m n v
on_failure-storage (paying x n) m v = failed-storage m n v

clear_unless-storage :
    (w : Bool) (v : View)
    → (clear_unless w v).storage ≡ (if not w then clear_cart v.storage else v.storage)
clear_unless-storage true v = refl
clear_unless-storage false v = refl

on_paid-storage :
    (st : Stage) (v : View)
    → (on_paid st v).storage ≡ (if ordinary st then clear_cart v.storage else v.storage)
on_paid-storage (paying x n) v =
    clear_unless-storage x.welfare (record v { submitting = false; stage = idle })
on_paid-storage idle v = refl
on_paid-storage (logging_in x) v = refl
on_paid-storage (creating x) v = refl
on_paid-storage (prepaying x n) v = refl

module _ (trim : String → String) (decode : String → Option String) (query : Row) where
  load_cart-storage :
      (a : Option Row) (v : View) → (load_cart trim decode query a v).storage ≡ v.storage
  unfolding load_cart
  load_cart-storage a v = refl

  load_data-storage :
      (note : Option String) (a : Option Row) (v : View)
      → (load_data trim decode query note a v).storage ≡ v.storage
  load_data-storage none a v = refl
  load_data-storage (some note) a v =
      if-storage (is_welfare_query trim decode query) v _ _ refl (load_cart-storage a v)

  on_detail-storage :
      (l : Option Load) (i : ℕ) (p : Option Row) (v : View)
      → (on_detail trim decode query l i p v).storage ≡ v.storage
  unfolding load_welfare
  on_detail-storage none i p v = refl
  on_detail-storage (some l) i none v = load_cart-storage _ _
  on_detail-storage (some l) i (some p) v = refl

  on_detail_failure-storage :
      (l : Option Load) (i : ℕ) (v : View)
      → (on_detail_failure trim decode query l i v).storage ≡ v.storage
  on_detail_failure-storage none i v = refl
  on_detail_failure-storage (some l) i v = load_cart-storage _ _

  submit_to-storage :
      (a : Option Row) (v : View) → (submit_to trim decode query a v).storage ≡ v.storage
  submit_to-storage none v = refl
  submit_to-storage (some a) v =
      if-storage (v.welfare_order && not (is_code (trim v.invite_code))) v
        (emit (shows_toast "福利码无效，请重新选择商品") v)
        (record v { submitting = true; stage = logging_in (submission trim decode query a v) }) refl
        refl

  submit_order-storage : (v : View) → (submit_order trim decode query v).storage ≡ v.storage
  unfolding submit_order
  submit_order-storage v =
      let told = emit switches_to_cart (emit (shows_toast "购物车为空") v) in
      let sent = submit_to trim decode query v.address v in
      if-storage v.submitting v v (if length v.items == 0 then told else sent) refl
        (if-storage (length v.items == 0) v told sent refl (submit_to-storage v.address v))

  -- In every state of the checkout, an event empties the cart exactly if it is the payment of an
  -- order that was sent as an ordinary one: no failure, and no payment of a welfare order, touches
  -- what is in the cart.
  pub step-storage :
      (e : Event) (v : View)
      → (step trim decode query e v).storage
        ≡ (if pays_ordinary v.stage e then clear_cart v.storage else v.storage)
  unfolding step
  step-storage (shows a) v = load_data-storage _ a v
  step-storage (details i p) v = on_detail-storage _ i p v
  step-storage (details_fail i) v = on_detail_failure-storage _ i v
  step-storage taps_address v = refl
  step-storage taps_order v = submit_order-storage v
  step-storage logged_in v = on_login-storage v.stage v
  step-storage (created n m) v = on_created-storage v.stage n m v
  step-storage (prepaid r) v = on_prepaid-storage v.stage r v
  step-storage paid v = on_paid-storage v.stage v
  step-storage (fails m) v = on_failure-storage v.stage m v
