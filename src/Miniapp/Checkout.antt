-- ===== src/Miniapp/Checkout.antt =====
-- The checkout, miniapp/pages/checkout/index.js, as a state machine: what it shows, the order that
-- it makes step by step (login, order, prepayment, payment), and what it does on the phone. The
-- query of its address, trim, and decodeURIComponent, none where it throws, are parameters.
pub mod Laws
pub mod Clearing
use Prim.Native.String.{◌++◌ as str_append}
use jtfp_cloudrun.Base.{
  ℕ, ◌==◌, String, Bool, true, false, not, ◌&&◌, Option, none, some, List, [], ◌∷◌, ◌++◌, map,
  length, if◌then◌else◌, str_eq,
}
use jtfp_cloudrun.Base.Int.{pos}
use jtfp_cloudrun.Js.{
  Value, undefined, null, str, int, truthy, or_else, to_text, of_number, text_of, exceeds,
}
use jtfp_cloudrun.Js.Objects.{Row, get, put}
use jtfp_cloudrun.Flcode.Upload.{is_code}
use jtfp_cloudrun.Miniapp.Url.{normalize_image_url}
use jtfp_cloudrun.Miniapp.Cart.{Storage, number, get_cart, clear_cart, total_from}
use jtfp_cloudrun.Miniapp.OrderList.{call_at, without}

-- The payload of createOrder.
pub record Order : Type 0 where
  pub items : List Row
  pub address : Row
  pub invite_code : Option String

-- What submitOrder keeps while it awaits: the payload, and whether a welfare code pays for it.
pub record Submission : Type 0 where
  pub order : Order
  pub welfare : Bool

-- Where submitOrder stands. The last two have the number of the order that was created.
pub data Stage : Type 0 where
  idle : Stage
  logging_in : Submission → Stage
  creating : Submission → Stage
  prepaying : Submission → String → Stage
  paying : Submission → String → Stage

-- What the page does to the phone and asks of the server.
pub data Effect : Type 0 where
  shows_toast : String → Effect
  switches_to_cart : Effect
  edits_address : Effect
  asks_order : Order → Effect
  asks_prepay : String → Effect
  asks_payment : Row → Effect
  clears_cart : Effect
  goes_to_order : String → Effect

-- A load of the page that awaits the product: the address and the note that it has read.
pub record Load : Type 0 where
  pub address : Option Row
  pub note : String

-- The page's data, the phone's cart, the order and the loads under way, and what the page has done,
-- the latest first.
pub record View : Type 0 where
  pub items : List Row
  pub goods : Value
  pub submitting : Bool
  pub address : Option Row
  pub welfare_order : Bool
  pub invite_code : String
  pub note : String
  pub storage : Storage
  pub stage : Stage
  pub loads : List Load
  pub log : List Effect

abbrev pub start : Storage → View
start storage = record {
  items = [];
  goods = int 0;
  submitting = false;
  address = none;
  welfare_order = false;
  invite_code = "";
  note = "";
  storage = storage;
  stage = idle;
  loads = [];
  log = [];
}

abbrev pub emit : Effect → View → View
emit e v = record v { log = e ∷ v.log }

-- What happens on the page: it shows, with the address in the storage; a product arrives or fails to
-- load; the user taps the address or the order; and the steps of submitOrder end. A created order
-- comes with `orderNo` and `data.orderNo`, empty where the answer has none.
pub data Event : Type 0 where
  shows : Option Row → Event
  details : ℕ → Option Row → Event
  details_fail : ℕ → Event
  taps_address : Event
  taps_order : Event
  logged_in : Event
  created : String → String → Event
  prepaid : Row → Event
  paid : Event
  fails : String → Event

-- The payload's items and address
abbrev pub ordered_item : Row → Row
ordered_item it =
    ("productId", number (get "productId" it))
    ∷ ("skuId", if truthy (get "skuId" it) then number (get "skuId" it) else undefined)
    ∷ ("qty", number (or_else (get "qty" it) (int 1)))
    ∷ []

abbrev pub ordered_address : Row → Row
ordered_address a =
    ("name", get "name" a)
    ∷ ("phone", get "phone" a)
    ∷ ("region", or_else (get "region" a) (str ""))
    ∷ ("province", get "province" a)
    ∷ ("city", get "city" a)
    ∷ ("district", get "district" a)
    ∷ ("detail", get "detail" a)
    ∷ []

-- catch and finally, with createdOrderNo
abbrev pub guides : String → View → View
guides order_no v = if str_eq order_no "" then v else emit (goes_to_order order_no) v

unfoldable pub failed : String → String → View → View
failed message order_no v = guides order_no (
    emit (shows_toast (if str_eq message "" then "下单/支付失败" else message))
      (record v { submitting = false; stage = idle }))

-- The end of each await of submitOrder
abbrev pub on_login : Stage → View → View
on_login (logging_in s) v = emit (asks_order s.order) (record v { stage = creating s })
on_login stage v = v

abbrev pub on_number : Submission → String → View → View
on_number s order_no v =
    if str_eq order_no ""
    then failed "创建订单失败：缺少订单号" "" v
    else emit (asks_prepay order_no) (record v { stage = prepaying s order_no })

abbrev pub on_created : Stage → String → String → View → View
on_created (creating s) order_no inner v =
    on_number s (if str_eq order_no "" then inner else order_no) v
on_created stage order_no inner v = v

-- The parameters of wx.requestPayment
abbrev pub payment_of : Row → Row
payment_of r =
    (
      "timeStamp",
      str (to_text (or_else (or_else (get "timeStamp" r) (get "timestamp" r)) (str ""))),
    )
    ∷ ("nonceStr", get "nonceStr" r)
    ∷ ("package", get "package" r)
    ∷ ("signType", or_else (get "signType" r) (str "RSA"))
    ∷ ("paySign", get "paySign" r)
    ∷ []

abbrev pub on_prepaid : Stage → Row → View → View
on_prepaid (prepaying s order_no) r v =
    emit (asks_payment (payment_of r)) (record v { stage = paying s order_no })
on_prepaid stage r v = v

abbrev pub clear_unless : Bool → View → View
clear_unless true v = v
clear_unless false v = emit clears_cart (record v { storage = clear_cart v.storage })

abbrev pub on_paid : Stage → View → View
on_paid (paying s order_no) v = emit (goes_to_order order_no) (
    emit (shows_toast "支付成功")
      (clear_unless s.welfare (record v { submitting = false; stage = idle })))
on_paid stage v = v

abbrev pub on_failure : Stage → String → View → View
on_failure idle message v = v
on_failure (logging_in s) message v = failed message "" v
on_failure (creating s) message v = failed message "" v
on_failure (prepaying s order_no) message v = failed message order_no v
on_failure (paying s order_no) message v = failed message order_no v

module _ (trim : String → String) (decode : String → Option String) (query : Row) where
  abbrev pub query_code : String
  query_code = trim (text_of (or_else (get "inviteCode" query) (str "")))

  abbrev pub query_price : Value
  query_price = number (or_else (get "welfarePriceCent" query) (int 0))

  -- inviteCode && productId && welfarePriceCent > 0
  unfoldable pub is_welfare_query : Bool
  is_welfare_query =
      not (str_eq query_code "")
      && truthy (number (get "productId" query))
      && exceeds query_price (int 0)

  -- loadData, for an ordinary order: what is in the cart
  unfoldable pub load_cart : Option Row → View → View
  load_cart address v =
      let items =
        map (λ it. put "cover_url" (str (normalize_image_url trim (get "cover_url" it))) it)
          (get_cart v.storage) in
      record v {
        items = items;
        goods = of_number (total_from (some (pos 0)) items);
        address = address;
        welfare_order = false;
        invite_code = "";
        note = "";
      }

  -- loadData, up to its await
  abbrev pub load_data : Option String → Option Row → View → View
  load_data none address v = v
  load_data (some note) address v =
      if is_welfare_query
      then record v { loads = v.loads ++ record { address = address; note = note } ∷ [] }
      else load_cart address v

  -- The one item of a welfare order
  abbrev pub welfare_item : Row → Row
  welfare_item product =
      (
        "key",
        str (
            str_append "welfare:"
              (str_append (to_text (number (get "productId" query))) (str_append ":" query_code))),
      )
      ∷ ("productId", number (get "id" product))
      ∷ ("skuId", null)
      ∷ ("qty", int 1)
      ∷ ("title", get "title" product)
      ∷ ("skuTitle", str (str_append "福利码 " query_code))
      ∷ ("cover_url", str (normalize_image_url trim (get "cover_url" product)))
      ∷ ("price_cent", query_price)
      ∷ ("is_welfare", int 1)
      ∷ []

  -- loadData, after its await
  unfoldable pub load_welfare : Load → Row → View → View
  load_welfare l product v = record v {
    items = welfare_item product ∷ [];
    goods = query_price;
    address = l.address;
    welfare_order = true;
    invite_code = query_code;
    note = l.note;
  }

  abbrev pub on_detail : Option Load → ℕ → Option Row → View → View
  on_detail none i product v = v
  on_detail (some l) i none v = load_cart l.address (record v { loads = without i v.loads })
  on_detail (some l) i (some product) v =
      load_welfare l product (record v { loads = without i v.loads })

  abbrev pub on_detail_failure : Option Load → ℕ → View → View
  on_detail_failure none i v = v
  on_detail_failure (some l) i v =
      load_cart l.address (emit (shows_toast "加载商品信息失败") (record v { loads = without i v.loads }))

  -- What submitOrder keeps of the page.
  unfoldable pub submission : Row → View → Submission
  submission address v =
      let code = trim v.invite_code in
      record {
        order = record {
          items = map ordered_item v.items;
          address = ordered_address address;
          invite_code = if v.welfare_order && not (str_eq code "") then some code else none;
        };
        welfare = v.welfare_order;
      }

  -- submitOrder, up to its first await
  abbrev pub submit_to : Option Row → View → View
  submit_to none v = emit edits_address (emit (shows_toast "请先填写收货地址") v)
  submit_to (some address) v =
      if v.welfare_order && not (is_code (trim v.invite_code))
      then emit (shows_toast "福利码无效，请重新选择商品") v
      else record v { submitting = true; stage = logging_in (submission address v) }

  unfoldable pub submit_order : View → View
  submit_order v =
      if v.submitting
      then v
      else if length v.items == 0
      then emit switches_to_cart (emit (shows_toast "购物车为空") v)
      else submit_to v.address v

  unfoldable pub step : Event → View → View
  step (shows address) v =
      load_data (decode (text_of (or_else (get "welfareNote" query) (str "")))) address v
  step (details i product) v = on_detail (call_at i v.loads) i product v
  step (details_fail i) v = on_detail_failure (call_at i v.loads) i v
  step taps_address v = emit edits_address v
  step taps_order v = submit_order v
  step logged_in v = on_login v.stage v
  step (created order_no inner) v = on_created v.stage order_no inner v
  step (prepaid r) v = on_prepaid v.stage r v
  step paid v = on_paid v.stage v
  step (fails message) v = on_failure v.stage message v

  abbrev pub run : List Event → View → View
  run [] v = v
  run (e ∷ es) v = run es (step e v)
