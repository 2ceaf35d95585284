-- ===== src/Tests/MiniappRuns.antt =====
-- The mini-program: taps on a small cart, and scrolling through twelve orders.
use jtfp_cloudrun.Base.{
  ℕ, ◌+◌, ◌*◌, ◌≡◌, refl, false, none, List, [], ◌∷◌, ◌++◌, map, take, if◌then◌else◌, All, ◌==◌,
  ◌&&◌,
}
use jtfp_cloudrun.Base.Int.{pos}
use jtfp_cloudrun.Js.{str, int, to_number}
use jtfp_cloudrun.Js.Objects.{Row, get}
use jtfp_cloudrun.Miniapp.Cart.{Storage, get_cart, add_to_cart}
use jtfp_cloudrun.Miniapp.Cart.Laws.{IsItem, IsCart, IsGoods, added}
use jtfp_cloudrun.Miniapp.Cart.Taps.{
  Tap, adds, more, less, removes, pays, run_taps, run_taps-IsCart,
}
use jtfp_cloudrun.Miniapp.Cart.Goods.{
  HasDistinctGoods, quantity_of, run_taps-HasDistinctGoods, quantity_of-add_to_cart,
}
use jtfp_cloudrun.Miniapp.OrderList.{
  View, start, asked, run, step, normalized, reaches_bottom, logs_in, fails, answers,
}
use jtfp_cloudrun.Miniapp.OrderList.Laws.{scrolling, scrolling-take, fails-skips}

abbrev milk : Row
milk = ("productId", int 3) ∷ ("skuId", int 8) ∷ ("qty", int 2) ∷ ("price_cent", int 990) ∷ []

empty-IsCart : IsCart none
empty-IsCart = record { items = tt; distinct = tt }

abbrev taps : List Tap
taps =
    adds milk
    ∷ more (str "3:8")
    ∷ adds milk
    ∷ less (str "3:8")
    ∷ removes (str "9:9")
    ∷ pays
    ∷ adds milk
    ∷ []

milk-IsGoods : IsGoods milk 3 8
unfolding to_number get
milk-IsGoods = record { of_product = refl; of_sku = refl }

run_taps-HasDistinctGoods_example :
    All IsItem (get_cart (run_taps taps none)) × HasDistinctGoods (get_cart (run_taps taps none))
unfolding to_number get
run_taps-HasDistinctGoods_example =
    run_taps-HasDistinctGoods taps none
      (
        (3, 8, pos 2, milk-IsGoods, refl),
        (
          tt,
          (
            (3, 8, pos 2, milk-IsGoods, refl),
            (tt, (tt, (tt, ((3, 8, pos 2, milk-IsGoods, refl), tt)))),
          ),
        ),
      )
      empty-IsCart

-- A cart that has the product under another SKU.
abbrev large : Row
large = ("productId", int 3) ∷ ("skuId", int 9) ∷ ("qty", int 4) ∷ []

abbrev larder : Storage
larder = add_to_cart large none

larder-IsCart : IsCart larder
unfolding to_number get
larder-IsCart =
    run_taps-IsCart (adds large ∷ []) none
      ((3, 9, pos 4, record { of_product = refl; of_sku = refl }, refl), tt) empty-IsCart

quantity_of-add_to_cart_example :
    quantity_of 3 9 (add_to_cart milk larder)
    ≡ (if 3 == 3 && 8 == 9 then quantity_of 3 9 larder + added (pos 2) else quantity_of 3 9 larder)
unfolding to_number get
quantity_of-add_to_cart_example =
    quantity_of-add_to_cart milk 3 8 (pos 2) 3 9 larder larder-IsCart milk-IsGoods refl refl

abbrev order : ℕ → Row
order i = ("id", int i) ∷ []

abbrev orders : List Row
orders = map order (1 ∷ 2 ∷ 3 ∷ 4 ∷ 5 ∷ 6 ∷ 7 ∷ 8 ∷ 9 ∷ 10 ∷ 11 ∷ 12 ∷ [])

scrolling-take_example :
    ((run (λ s. s) (scrolling (λ s. s) orders 1) start).orders
      ≡ map (normalized (λ s. s)) (take (2 * 10) orders))
    × ((run (λ s. s) (scrolling (λ s. s) orders 1) start).loading ≡ false)
    × ((run (λ s. s) (scrolling (λ s. s) orders 1) start).total ≡ 12)
scrolling-take_example = scrolling-take (λ s. s) orders 1

-- One page of the orders.
abbrev first_ten : View
first_ten = record start { loading = false; orders = take 10 orders; total = 12 }

fails-skips_example :
    let asking : View =
      run
        (λ s. s)
        (reaches_bottom ∷ logs_in 0 ∷ fails 0 "网络错误" ∷ reaches_bottom ∷ logs_in 0 ∷ [])
        first_ten in
    (asking.calls ≡ asked false 3 ∷ [])
    × ((step (λ s. s) (answers 0 [] 12) asking).orders
        ≡ first_ten.orders ++ map (normalized (λ s. s)) [])
fails-skips_example = fails-skips (λ s. s) first_ten "网络错误" [] 12 refl refl refl
