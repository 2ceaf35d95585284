-- ===== src/Miniapp/Checkout/Laws.antt =====
-- What becomes of the orders and of the cart.
use jtfp_cloudrun.Base.{
  ℕ, String, ◌≡◌, refl, ap, Bool, true, false, not, ◌&&◌, Option, none, some, List, [], ◌∷◌, ◌++◌,
  if◌then◌else◌, str_eq, length, ◌==◌, Bool-cases, inl, inr,
}
use jtfp_cloudrun.Js.Objects.{Row}
use jtfp_cloudrun.Flcode.Upload.{is_code}
use jtfp_cloudrun.Miniapp.Cart.{Storage}
use jtfp_cloudrun.Miniapp.Checkout.{
  Submission, Stage, idle, logging_in, creating, prepaying, paying, Effect, shows_toast,
  switches_to_cart, goes_to_order, Load, View, start, emit, Event, shows, details, details_fail,
  taps_address, taps_order, logged_in, created, prepaid, paid, fails, failed, on_login, on_number,
  on_created, on_prepaid, clear_unless, on_paid, on_failure, load_cart, load_data, load_welfare,
  on_detail, on_detail_failure, is_welfare_query, submit_to, submit_order, step, run,
}

-- The number of the order that the server has created, by its answer: `orderNo`, or else the one in
-- `data`, before those that came earlier.
abbrev pub number_given : String → String → List String → List String
number_given order_no inner acc =
    if not (str_eq order_no "")
    then order_no ∷ acc
    else if not (str_eq inner "")
    then inner ∷ acc
    else acc

-- The orders created so far: an answer counts where an order is awaited.
abbrev pub answered : Stage → String → String → List String → List String
answered (creating s) order_no inner acc = number_given order_no inner acc
answered _ order_no inner acc = acc

abbrev pub noted : Stage → Event → List String → List String
noted stage (created order_no inner) acc = answered stage order_no inner acc
noted stage _ acc = acc

-- The pages that the checkout went to, the latest first.
abbrev pub visited : List Effect → List String
visited [] = []
visited (goes_to_order n ∷ es) = n ∷ visited es
visited (_ ∷ es) = visited es

-- The order that is created and not yet gone to.
abbrev pub pending : Stage → List String
pending (prepaying s n) = n ∷ []
pending (paying s n) = n ∷ []
pending _ = []

abbrev IsBusy : Stage → Bool → Type 0
IsBusy idle b = true ≡ true
IsBusy (logging_in s) b = b ≡ true
IsBusy (creating s) b = b ≡ true
IsBusy (prepaying s n) b = (b ≡ true) × (str_eq n "" ≡ false)
IsBusy (paying s n) b = (b ≡ true) × (str_eq n "" ≡ false)

abbrev IsAt : List String → Stage → View → Type 0
IsAt acc st v = (pending st ++ visited v.log ≡ acc) × IsBusy st v.submitting

abbrev IsTracked : List String → View → Type 0
IsTracked acc v = IsAt acc v.stage v

module _ (acc : List String) where
  if-IsTracked :
      (b : Bool) (v w : View)
      → (b ≡ true → IsTracked acc v)
      → (b ≡ false → IsTracked acc w)
      → IsTracked acc (if b then v else w)
  if-IsTracked true v w p q = p refl
  if-IsTracked false v w p q = q refl

  failed-nowhere :
      (message : String) (v : View) → visited v.log ≡ acc → IsTracked acc (failed message "" v)
  unfolding failed
  failed-nowhere message v e = (e, refl)

  failed-there :
      (message n : String) (v : View)
      → str_eq n "" ≡ false
      → n ∷ visited v.log ≡ acc
      → IsTracked acc (failed message n v)
  unfolding failed
  failed-there message n v named e = rw named (e, refl)

  on_login-IsTracked :
      (st : Stage) (v : View) → IsTracked acc v → IsAt acc st v → IsTracked acc (on_login st v)
  on_login-IsTracked (logging_in x) v h at = at
  on_login-IsTracked idle v h at = h
  on_login-IsTracked (creating x) v h at = h
  on_login-IsTracked (prepaying x n) v h at = h
  on_login-IsTracked (paying x n) v h at = h

  on_number-IsTracked :
      (x : Submission) (n : String) (v : View)
      → IsAt acc (creating x) v
      → IsTracked (if not (str_eq n "") then n ∷ acc else acc) (on_number x n v)
  on_number-IsTracked x n v at = elim (Bool-cases (str_eq n "")) [
    | inl e ↦ rw e (failed-nowhere _ v at.0)
    | inr e ↦ rw e (ap (λ ns. n ∷ ns) at.0, (at.1, e))
  ]

  on_created-IsTracked :
      (st : Stage) (n m : String) (v : View)
      → IsTracked acc v
      → IsAt acc st v
      → IsTracked (answered st n m acc) (on_created st n m v)
  on_created-IsTracked (creating x) n m v h at = elim (Bool-cases (str_eq n "")) [
    | inl e ↦ rw e (on_number-IsTracked x m v at)
    | inr e ↦ rw (e, e) (ap (λ ns. n ∷ ns) at.0, (at.1, e))
  ]
  on_created-IsTracked idle n m v h at = h
  on_created-IsTracked (logging_in x) n m v h at = h
  on_created-IsTracked (prepaying x k) n m v h at = h
  on_created-IsTracked (paying x k) n m v h at = h

  on_prepaid-IsTracked :
      (st : Stage) (r : Row) (v : View)
      → IsTracked acc v
      → IsAt acc st v
      → IsTracked acc (on_prepaid st r v)
  on_prepaid-IsTracked (prepaying x n) r v h at = at
  on_prepaid-IsTracked idle r v h at = h
  on_prepaid-IsTracked (logging_in x) r v h at = h
  on_prepaid-IsTracked (creating x) r v h at = h
  on_prepaid-IsTracked (paying x n) r v h at = h

  cleared-IsTracked :
      (w : Bool) (n : String) (v : View)
      → n ∷ visited v.log ≡ acc
      → IsTracked acc (
          emit (goes_to_order n) (
            emit
              (shows_toast "支付成功")
              (clear_unless w (record v { submitting = false; stage = idle }))))
  cleared-IsTracked true n v e = (e, refl)
  cleared-IsTracked false n v e = (e, refl)

  on_paid-IsTracked :
      (st : Stage) (v : View) → IsTracked acc v → IsAt acc st v → IsTracked acc (on_paid st v)
  on_paid-IsTracked (paying x n) v h at = cleared-IsTracked x.welfare n v at.0
  on_paid-IsTracked idle v h at = h
  on_paid-IsTracked (logging_in x) v h at = h
  on_paid-IsTracked (creating x) v h at = h
  on_paid-IsTracked (prepaying x n) v h at = h

  on_failure-IsTracked :
      (st : Stage) (m : String) (v : View)
      → IsTracked acc v
      → IsAt acc st v
      → IsTracked acc (on_failure st m v)
  on_failure-IsTracked idle m v h at = h
  on_failure-IsTracked (logging_in x) m v h at = failed-nowhere m v at.0
  on_failure-IsTracked (creating x) m v h at = failed-nowhere m v at.0
  on_failure-IsTracked (prepaying x n) m v h at = failed-there m n v at.1.1 at.0
  on_failure-IsTracked (paying x n) m v h at = failed-there m n v at.1.1 at.0

  -- Where nothing is being submitted, no order is under way.
  idle-visited :
      (st : Stage) (v : View) → v.submitting ≡ false → IsAt acc st v → visited v.log ≡ acc
  idle-visited idle v e at = at.0
  idle-visited (logging_in x) v e at = at.0
  idle-visited (creating x) v e at = at.0
  idle-visited (prepaying x n) v e at = let busy = at.1.0 in cc
  idle-visited (paying x n) v e at = let busy = at.1.0 in cc

  module _ (trim : String → String) (decode : String → Option String) (query : Row) where
    load_cart-IsTracked :
        (a : Option Row) (v : View)
        → IsTracked acc v
        → IsTracked acc (load_cart trim decode query a v)
    unfolding load_cart
    load_cart-IsTracked a v h = h

    load_data-IsTracked :
        (note : Option String) (a : Option Row) (v : View)
        → IsTracked acc v
        → IsTracked acc (load_data trim decode query note a v)
    load_data-IsTracked none a v h = h
    load_data-IsTracked (some note) a v h = elim (Bool-cases (is_welfare_query trim decode query)) [
      | inl e ↦ rw e h
      | inr e ↦ rw e (load_cart-IsTracked a v h)
    ]

    on_detail-IsTracked :
        (l : Option Load) (i : ℕ) (p : Option Row) (v : View)
        → IsTracked acc v
        → IsTracked acc (on_detail trim decode query l i p v)
    unfolding load_welfare
    on_detail-IsTracked none i p v h = h
    on_detail-IsTracked (some l) i none v h = load_cart-IsTracked _ _ h
    on_detail-IsTracked (some l) i (some p) v h = h

    on_detail_failure-IsTracked :
        (l : Option Load) (i : ℕ) (v : View)
        → IsTracked acc v
        → IsTracked acc (on_detail_failure trim decode query l i v)
    on_detail_failure-IsTracked none i v h = h
    on_detail_failure-IsTracked (some l) i v h = load_cart-IsTracked _ _ h

    submit_to-IsTracked :
        (a : Option Row) (v : View)
        → IsTracked acc v
        → visited v.log ≡ acc
        → IsTracked acc (submit_to trim decode query a v)
    submit_to-IsTracked none v h e = h
    submit_to-IsTracked (some a) v h e =
        elim (Bool-cases (v.welfare_order && not (is_code (trim v.invite_code)))) [
          | inl c ↦ rw c h
          | inr c ↦ rw c (e, refl)
        ]

    submit_order-IsTracked :
        (v : View) → IsTracked acc v → IsTracked acc (submit_order trim decode query v)
    unfolding submit_order
    submit_order-IsTracked v h =
        let told = emit switches_to_cart (emit (shows_toast "购物车为空") v) in
        let sent = submit_to trim decode query v.address v in
        if-IsTracked v.submitting v (if length v.items == 0 then told else sent) (λ e. h)
          (λ e.
            if-IsTracked (length v.items == 0) told sent (λ _. h)
              (λ _. submit_to-IsTracked v.address v h (idle-visited v.stage v e h)))

    step-IsTracked :
        (e : Event) (v : View)
        → IsTracked acc v
        → IsTracked (noted v.stage e acc) (step trim decode query e v)
    unfolding step
    step-IsTracked (shows a) v h = load_data-IsTracked _ a v h
    step-IsTracked (details i p) v h = on_detail-IsTracked _ i p v h
    step-IsTracked (details_fail i) v h = on_detail_failure-IsTracked _ i v h
    step-IsTracked taps_address v h = h
    step-IsTracked taps_order v h = submit_order-IsTracked v h
    step-IsTracked logged_in v h = on_login-IsTracked v.stage v h h
    step-IsTracked (created n m) v h = on_created-IsTracked v.stage n m v h h
    step-IsTracked (prepaid r) v h = on_prepaid-IsTracked v.stage r v h h
    step-IsTracked paid v h = on_paid-IsTracked v.stage v h h
    step-IsTracked (fails m) v h = on_failure-IsTracked v.stage m v h h

module _ (trim : String → String) (decode : String → Option String) (query : Row) where
  -- The orders that the server creates in the course of some events, the latest first.
  abbrev pub orders_created : List Event → View → List String → List String
  orders_created [] v acc = acc
  orders_created (e ∷ es) v acc =
      orders_created es (step trim decode query e v) (noted v.stage e acc)

  run-IsTracked :
      (es : List Event) (v : View) (acc : List String)
      → IsTracked acc v
      → IsTracked (orders_created es v acc) (run trim decode query es v)
  run-IsTracked [] v acc h = h
  run-IsTracked (e ∷ es) v acc h =
      run-IsTracked es (step trim decode query e v) (noted v.stage e acc)
        (step-IsTracked acc trim decode query e v h)

  -- Whatever happens on the checkout, and however often the user taps: the orders that the page went
  -- to, after the one that is still under way, if any, are the orders that the server has answered
  -- with, in `orderNo` or else in `data`, each once and in their order. So neither a failed
  -- prepayment nor a failed payment loses an order.
  pub run-visits :
      (es : List Event) (cart : Storage)
      → pending (run trim decode query es (start cart)).stage
          ++ visited (run trim decode query es (start cart)).log
        ≡ orders_created es (start cart) []
  run-visits es cart = (run-IsTracked es (start cart) [] (refl, refl)).0
