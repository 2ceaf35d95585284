-- ===== src/Miniapp/Product.antt =====
-- A product's page, miniapp/pages/product/index.js, as a state machine: its goods, their price, and
-- the welfare code that is typed, checked by the server after a while, and bought with. `trim` is
-- that of texts; the description's HTML is left out.
pub mod Laws
use Prim.Native.Char.{code}
use Prim.Native.String.{◌++◌ as str_append}
use jtfp_cloudrun.Base.{
  ℕ, zero, suc, ◌+◌, ◌-◌, ◌==◌, leb, String, Bool, true, false, not, ◌&&◌, Option, none, some, List,
  [], ◌∷◌, ◌++◌, map, find, length, if◌then◌else◌, str_eq,
}
use jtfp_cloudrun.Js.{Value, undefined, null, str, int, bool, strict_eq, truthy, or_else, to_text}
use jtfp_cloudrun.Js.Text.{codes}
use jtfp_cloudrun.Js.Objects.{Row, get, put}
use jtfp_cloudrun.Flcode.Upload.{is_code}
use jtfp_cloudrun.Miniapp.Url.{normalize_image_url}
use jtfp_cloudrun.Miniapp.Cart.{number, is_one}
use jtfp_cloudrun.Miniapp.OrderList.{call_at, without}

-- The page's data about the welfare code.
pub record Welfare : Type 0 where
  pub checked : Bool
  pub valid : Bool
  pub price_cent : Value
  pub note : String
  pub error : String
  pub max_usage : Value
  pub used_count : Value
  pub remaining_usage : Value

-- The page's data, the code that the timer is to check, and the codes whose check is under way.
pub record View : Type 0 where
  pub loading : Bool
  pub error : Option String
  pub product : Option Row
  pub skus : List Row
  pub selected : Value
  pub qty : ℕ
  pub display : Value
  pub code : String
  pub welfare : Welfare
  pub timer : Option String
  pub asked : List String

abbrev pub unchecked : Welfare
unchecked = record {
  checked = false;
  valid = false;
  price_cent = int 0;
  note = "";
  error = "";
  max_usage = int 1;
  used_count = int 0;
  remaining_usage = int 0;
}

abbrev pub start : View
start = record {
  loading = true;
  error = none;
  product = none;
  skus = [];
  selected = null;
  qty = 1;
  display = int 0;
  code = "";
  welfare = unchecked;
  timer = none;
  asked = [];
}

abbrev pub is_welfare : Row → Bool
is_welfare product = is_one (get "is_welfare" product)

-- Number(r.price_cent || 0)
abbrev pub price_of : Row → Value
price_of r = number (or_else (get "price_cent" r) (int 0))

-- selectedSkuId ? skus.find((s) => Number(s.id) === Number(selectedSkuId)) : null
unfoldable pub selected_sku : Value → List Row → Option Row
selected_sku selected skus =
    if truthy selected
    then find (λ s. strict_eq (number (get "id" s)) (number selected)) skus
    else none

abbrev pub shown_price : Row → Option Row → Welfare → Value
shown_price product sku w =
    if is_welfare product
    then (if w.valid then number (or_else w.price_cent (int 0)) else price_of product)
    else elim sku [ none ↦ price_of product | some s ↦ price_of s ]

-- updateDisplayPrice
abbrev pub display_of : Option Row → View → View
display_of none v = v
display_of (some product) v = record v {
  display = shown_price product (selected_sku v.selected v.skus) v.welfare;
}

unfoldable pub update_display_price : View → View
update_display_price v = display_of v.product v

-- value.replace(/\D/g, '').slice(0, n)
unfoldable pub first_digits : ℕ → String → String
first_digits n String.[] = String.[]
first_digits zero (String.◌∷◌ c s) = String.[]
first_digits (suc n) (String.◌∷◌ c s) =
    let taken = String.◌∷◌ c (first_digits n s) in
    let passed = first_digits (suc n) s in
    if leb b'0' (code c) && leb (code c) b'9' then taken else passed

-- onWelfareCodeInput: six digits start the timer, fewer forget what was checked.
abbrev pub typed : String → View → View
typed value v =
    if length (codes value) == 6
    then record v { code = value; timer = some value }
    else update_display_price (record v { code = value; timer = none; welfare = unchecked })

unfoldable pub on_welfare_code_input : String → View → View
on_welfare_code_input text v = typed (first_digits 6 text) v

-- The product's quantity: Math.max(1, qty - 1) and Math.max(1, qty + 1)
abbrev pub ordinary_product : Option Row → Bool
ordinary_product none = false
ordinary_product (some product) = not (is_welfare product)

unfoldable pub dec_qty : View → View
dec_qty v =
    if ordinary_product v.product
    then record v { qty = if leb v.qty 2 then 1 else v.qty - 1 }
    else v

unfoldable pub inc_qty : View → View
inc_qty v = if ordinary_product v.product then record v { qty = v.qty + 1 } else v

-- What buyNow does: nothing, a message, the checkout with a query, or the checkout behind addToCart.
pub data Going : Type 0 where
  stays : Going
  shows : String → Going
  to_checkout : Row → Going
  adds_and_goes : Row → Going

-- What happens on the page.
pub data Event : Type 0 where
  loads : Option Row → List Row → Event
  load_fails : String → Event
  selects : Value → Event
  less : Event
  more : Event
  types : String → Event
  fires : Event
  answers : ℕ → Row → Event
  fails : ℕ → String → Event

module _ (trim : String → String) where
  abbrev pub with_cover : Value → Row → Row
  with_cover fallback r =
      put "cover_url" (str (normalize_image_url trim (or_else (get "cover_url" r) fallback))) r

  abbrev pub first_sku : Bool → List Row → Value
  first_sku welfare [] = null
  first_sku welfare (s ∷ ss) = if welfare then null else number (get "id" s)

  -- loadDetail, on what the server answers
  abbrev pub loaded : Option Row → List Row → View → View
  loaded none skus v = record v { loading = false; error = some "商品不存在" }
  loaded (some product) skus v =
      let covered =
        put "cover_url" (str (normalize_image_url trim (get "cover_url" product))) product in
      let all = map (with_cover (get "cover_url" product)) skus in
      update_display_price (record v {
        product = some covered;
        skus = all;
        selected = first_sku (is_welfare covered) all;
        qty = 1;
        display = int 0;
        loading = false;
        error = none;
      })

  -- selectSku, on the number of the tapped SKU
  abbrev pub select_sku : Value → View → View
  select_sku id v =
      if truthy (number id) then update_display_price (record v { selected = number id }) else v

  -- checkWelfareCode, up to its await
  abbrev pub asks : Option Row → String → View → View
  asks none value v = v
  asks (some product) value v =
      if is_welfare product && is_code (trim value)
      then record v { asked = v.asked ++ trim value ∷ [] }
      else v

  -- The timer's function
  abbrev pub fired : Option String → View → View
  fired none v = v
  fired (some value) v = asks v.product value (record v { timer = none })

  abbrev pub quoted : Row → Welfare
  quoted answer = record {
    checked = true;
    valid = truthy (get "ok" answer);
    price_cent = number (or_else (get "priceCent" answer) (int 0));
    note = to_text (or_else (get "note" answer) (str ""));
    error = "";
    max_usage = number (or_else (get "maxUsage" answer) (int 1));
    used_count = number (or_else (get "usedCount" answer) (int 0));
    remaining_usage = number (or_else (get "remainingUsage" answer) (int 0));
  }

  abbrev pub refused : String → Welfare
  refused message = record unchecked {
    checked = true;
    error = if str_eq message "" then "您输入的福利码错误，请输入正确码，否则无法通过福利通道下单。" else message;
  }

  abbrev pub take_quote : Option String → ℕ → Welfare → View → View
  take_quote none i w v = v
  take_quote (some value) i w v =
      update_display_price (record v { welfare = w; asked = without i v.asked })

  unfoldable pub step : Event → View → View
  step (loads product skus) v = loaded product skus v
  step (load_fails message) v = record v {
    loading = false;
    error = some (if str_eq message "" then "加载失败" else message);
  }
  step (selects id) v = select_sku id v
  step less v = dec_qty v
  step more v = inc_qty v
  step (types text) v = on_welfare_code_input text v
  step fires v = fired v.timer v
  step (answers i answer) v = take_quote (call_at i v.asked) i (quoted answer) v
  step (fails i message) v = take_quote (call_at i v.asked) i (refused message) v

  abbrev pub run : List Event → View → View
  run [] v = v
  run (e ∷ es) v = run es (step e v)

  -- The payload of addToCart, for a product that is no welfare good.
  abbrev pub cart_payload : Row → Option Row → ℕ → Row
  cart_payload product sku qty =
      ("productId", number (get "id" product))
      ∷ ("skuId", elim sku [ none ↦ null | some s ↦ number (get "id" s) ])
      ∷ ("qty", int qty)
      ∷ ("title", get "title" product)
      ∷ ("skuTitle", elim sku [ none ↦ str "" | some s ↦ get "sku_title" s ])
      ∷ (
        "cover_url",
        elim sku [
          | none ↦ get "cover_url" product
          | some s ↦ or_else (get "cover_url" s) (get "cover_url" product)
        ],
      )
      ∷ ("price_cent", elim sku [ none ↦ price_of product | some s ↦ price_of s ])
      ∷ ("is_welfare", int 0)
      ∷ []

  abbrev pub buy_product : Option Row → View → Going
  buy_product none v = stays
  buy_product (some product) v =
      if is_welfare product
      then (if not v.welfare.valid
          then shows (if str_eq v.welfare.error "" then "请先输入正确的福利码" else v.welfare.error)
          else to_checkout (
              ("productId", get "id" product)
              ∷ ("qty", int 1)
              ∷ ("inviteCode", str (trim v.code))
              ∷ ("welfarePriceCent", v.welfare.price_cent)
              ∷ ("welfareNote", str v.welfare.note)
              ∷ []))
      else adds_and_goes (cart_payload product (selected_sku v.selected v.skus) v.qty)

  -- buyNow
  unfoldable pub buy_now : View → Going
  buy_now v = buy_product v.product v
