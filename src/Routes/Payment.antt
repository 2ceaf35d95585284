-- ===== src/Routes/Payment.antt =====
-- The payment notification of src/routes/api_v1/pay.ts, and of src/routes/payment.ts, which is the
-- same. The signature check, the decryption and the JSON of the body are services of others: what
-- they give is the argument.
pub mod Laws
use jtfp_cloudrun.Base.{String, Bool, false, not, Option, none, some, [], ◌∷◌, if◌then◌else◌}
use jtfp_cloudrun.Js.{str, strict_eq}
use jtfp_cloudrun.Js.Objects.{Row, get}
use jtfp_cloudrun.Store.State.{Process}
use jtfp_cloudrun.Http.{Reply, sent, Handler, json, status_json, code_message, fields_only}
use jtfp_cloudrun.Repositories.Orders.{find_by_order_no, update_status, log_change}

-- What decryptResource does: it gives a payment, or nothing, or throws with a message (the tag does
-- not fit, or the text is no JSON).
pub data Decryption : Type 0 where
  opens : Option Row → Decryption
  fails : String → Decryption

-- What the handler reads of the request: the signature's verdict where a platform key is installed
-- (`none` where none is), the parsed body (`none` where JSON.parse throws, with the error's text),
-- and what decryptResource makes of its resource (`none` where the body has no resource).
pub record Notification : Type 0 where
  pub signature : Option Bool
  pub body : Option Row
  pub parse_error : String
  pub payment : Option Decryption

abbrev acknowledge : String → Reply
acknowledge message = sent (json (fields_only (code_message "SUCCESS" message)))

abbrev is_forged : Option Bool → Bool
is_forged none = false
is_forged (some ok) = not ok

-- The order's new fields.
abbrev pub paid_fields : String → Row
paid_fields now = ("paid_at", str now) ∷ ("payment_method", str "WECHAT") ∷ []

abbrev record_found : Option Row → Row → String → Process → Process
record_found none pay now s = s
record_found (some order) pay now s =
    let s1 =
      (update_status (get "order_no" pay) (str "PENDING_FREIGHT") (paid_fields now) now s).1 in
    log_change (get "order_no" pay) (str "status") (get "status" order) (str "PENDING_FREIGHT")
      (str "wechat_notify") now s1

-- The order is looked up by `out_trade_no`, and updated and logged by `order_no`.
unfoldable pub record_payment : Row → String → Process → Process
record_payment pay now s =
    let (order, s1) = find_by_order_no (get "out_trade_no" pay) now s in
    record_found order pay now s1

abbrev settle_payment : Option Decryption → String → Handler
settle_payment none now s =
    (sent (status_json 400 (code_message "BAD_REQUEST" "missing resource")), s)
settle_payment (some (fails message)) now s =
    (sent (status_json 500 (code_message "INTERNAL_ERROR" message)), s)
settle_payment (some (opens none)) now s = (acknowledge "not success state", s)
settle_payment (some (opens (some pay))) now s =
    if not (strict_eq (get "trade_state" pay) (str "SUCCESS"))
    then (acknowledge "not success state", s)
    else (acknowledge "ok", record_payment pay now s)

abbrev handle_body : Option Row → Notification → String → Handler
handle_body none n now s = (sent (status_json 500 (code_message "INTERNAL_ERROR" n.parse_error)), s)
handle_body (some body) n now s =
    if not (strict_eq (get "event_type" body) (str "TRANSACTION.SUCCESS"))
    then (acknowledge "ignored", s)
    else settle_payment n.payment now s

-- POST /wechat/notify
unfoldable pub notify : Notification → String → Handler
notify n now s =
    if is_forged n.signature
    then (sent (status_json 401 (code_message "SIGN_VERIFY_FAIL" "invalid signature")), s)
    else handle_body n.body n now s

-- POST /wechat/jsapi/prepay, behind its guards: payment is disabled.
unfoldable pub prepay : Handler
prepay s = (sent (status_json 400 (code_message "PAYMENT_DISABLED" "支付功能已禁用")), s)
