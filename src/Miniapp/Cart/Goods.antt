-- ===== src/Miniapp/Cart/Goods.antt =====
-- The cart by products and SKUs, without its keys.
use jtfp_cloudrun.Base.{
  ℕ, ◌+◌, ◌==◌, ◌≡◌, refl, ap, ◌∙◌, Bool, false, ◌&&◌, some, List, [], ◌∷◌, arith, if◌then◌else◌,
  find, All,
}
use jtfp_cloudrun.Base.Int.{ℤ, pos, eq_ℤ}
use jtfp_cloudrun.Js.{str, int, strict_eq, or_else, to_number}
use jtfp_cloudrun.Js.Objects.{Row, get}
use jtfp_cloudrun.Miniapp.Cart.{Storage, get_cart, has_key, is_one, add_to_cart}
use jtfp_cloudrun.Miniapp.Cart.Keys.{goods_key, str_eq-goods_key}
use jtfp_cloudrun.Miniapp.Cart.Laws.{
  IsItem, HasDistinctKeys, IsCart, IsGoods, key_of-goods, added, units, quantity,
  quantity-add_to_cart,
}
use jtfp_cloudrun.Miniapp.Cart.Taps.{Tap, IsWhole, run_taps, run_taps-IsCart, add_to_cart-IsCart}

-- Whether two items are of the same product and SKU, where null and 0 are no SKU.
abbrev pub is_same_goods : Row → Row → Bool
is_same_goods r x =
    strict_eq (get "productId" x) (get "productId" r)
    && strict_eq (or_else (get "skuId" x) (int 0)) (or_else (get "skuId" r) (int 0))

abbrev pub HasDistinctGoods : List Row → Type 0
HasDistinctGoods [] = Unit
HasDistinctGoods (r ∷ rs) = All (λ x. is_same_goods r x ≡ false) rs × HasDistinctGoods rs

abbrev pub is_of : ℕ → ℕ → Row → Bool
is_of p k x =
    strict_eq (get "productId" x) (int p) && strict_eq (or_else (get "skuId" x) (int 0)) (int k)

-- How many of a product and SKU the cart holds.
abbrev pub quantity_of : ℕ → ℕ → Storage → ℕ
quantity_of p k storage = units (find (is_of p k) (get_cart storage))

eq_ℤ-pos : (a b : ℕ) → eq_ℤ (pos a) (pos b) ≡ (a == b)
eq_ℤ-pos a b = ground arith

is_of-has_key : (p k : ℕ) (x : Row) → IsItem x → is_of p k x ≡ has_key (str (goods_key p k)) x
is_of-has_key p k x h =
    rw (h.of_product, h.of_sku, h.keyed, str_eq-goods_key, eq_ℤ-pos, eq_ℤ-pos) refl

is_same_goods-has_key :
    (r x : Row) → IsItem r → IsItem x → is_same_goods r x ≡ has_key (get "key" r) x
is_same_goods-has_key r x h i =
    rw (h.of_product, h.of_sku, h.keyed) (is_of-has_key h.product h.sku x i)

find-is_of :
    (p k : ℕ) (rs : List Row)
    → All IsItem rs
    → find (is_of p k) rs ≡ find (has_key (str (goods_key p k))) rs
find-is_of p k [] h = refl
find-is_of p k (r ∷ rs) h = rw (is_of-has_key p k r h.0, find-is_of p k rs h.1) refl

quantity_of-quantity :
    (p k : ℕ) (s : Storage) → IsCart s → quantity_of p k s ≡ quantity (goods_key p k) s
unfolding quantity
quantity_of-quantity p k s h = ap units (find-is_of p k (get_cart s) h.items)

others :
    (r : Row) (rs : List Row)
    → IsItem r
    → All IsItem rs
    → All (λ x. has_key (get "key" r) x ≡ false) rs
    → All (λ x. is_same_goods r x ≡ false) rs
others r [] h i d = tt
others r (x ∷ rs) h i d = (is_same_goods-has_key r x h i.0 ∙ d.0, others r rs h i.1 d.1)

goods-HasDistinctKeys : (rs : List Row) → All IsItem rs → HasDistinctKeys rs → HasDistinctGoods rs
goods-HasDistinctKeys [] h d = tt
goods-HasDistinctKeys (r ∷ rs) h d = (others r rs h.0 h.1 d.0, goods-HasDistinctKeys rs h.1 d.1)

-- Whatever goods a user puts into the cart, each of a numbered product and SKU, or of none, and in a
-- whole number, and whatever the user taps there: every item of the cart has a product, a SKU or
-- none, and the key of these two, a quantity of at least one, and is no welfare good; and no two
-- items have the same product and the same SKU.
pub run_taps-HasDistinctGoods :
    (ts : List Tap) (s : Storage)
    → All IsWhole ts
    → IsCart s
    → All IsItem (get_cart (run_taps ts s)) × HasDistinctGoods (get_cart (run_taps ts s))
run_taps-HasDistinctGoods ts s w h =
    let c = run_taps-IsCart ts s w h in
    (c.items, goods-HasDistinctKeys (get_cart (run_taps ts s)) c.items c.distinct)

-- Goods of a product and SKU that are put into the cart add their quantity, one at least, to what it
-- holds of the same product and SKU, and nothing to what it holds of any other product or SKU.
pub quantity_of-add_to_cart :
    (payload : Row) (q l : ℕ) (z : ℤ) (p k : ℕ) (s : Storage)
    → IsCart s
    → IsGoods payload q l
    → is_one (get "is_welfare" payload) ≡ false
    → to_number (or_else (get "qty" payload) (int 1)) ≡ some z
    → quantity_of p k (add_to_cart payload s)
      ≡ (if q == p && l == k then quantity_of p k s + added z else quantity_of p k s)
quantity_of-add_to_cart payload q l z p k s h goods ordinary whole =
    quantity_of-quantity p k (add_to_cart payload s)
      (add_to_cart-IsCart payload q l z s goods whole h)
    ∙ quantity-add_to_cart payload z (goods_key p k) s h ordinary whole
    ∙ rw (key_of-goods payload q l goods, str_eq-goods_key, quantity_of-quantity p k s h) refl
