-- ===== src/Tests/CheckoutRuns.antt =====
-- The mini-program: a checkout where the payment is broken off once and tried again.
use jtfp_cloudrun.Base.{String, ◌≡◌, refl, none, some, List, [], ◌∷◌, ◌++◌, if◌then◌else◌}
use jtfp_cloudrun.Js.{str, int, to_number, exceeds}
use jtfp_cloudrun.Js.Objects.{Row, get}
use jtfp_cloudrun.Miniapp.Cart.{Storage, clear_cart}
use jtfp_cloudrun.Miniapp.Checkout.{
  View, Event, shows, taps_order, logged_in, created, prepaid, paid, fails, start, step, run,
  submit_order, is_welfare_query, load_cart, failed, submission,
}
use jtfp_cloudrun.Miniapp.Checkout.Laws.{orders_created, visited, pending, run-visits}
use jtfp_cloudrun.Miniapp.Checkout.Clearing.{pays_ordinary, step-storage}

abbrev plain : String → String
plain s = s

abbrev cart : Storage
cart = some (
    (("key", str "3:8") ∷ ("productId", int 3) ∷ ("qty", int 2) ∷ ("price_cent", int 990) ∷ [])
    ∷ [])

abbrev home : Row
home = ("name", str "王") ∷ ("phone", str "13800000000") ∷ ("detail", str "1") ∷ []

abbrev second_try : List Event
second_try =
    shows none
    ∷ taps_order
    ∷ shows (some home)
    ∷ taps_order
    ∷ taps_order
    ∷ logged_in
    ∷ created "A1" ""
    ∷ prepaid []
    ∷ fails ""
    ∷ taps_order
    ∷ logged_in
    ∷ created "" "A2"
    ∷ prepaid []
    ∷ []

abbrev tried : View
tried = run plain some [] second_try (start cart)

-- The first order was gone to, and the second is under way.
tried_pending : pending tried.stage ≡ "A2" ∷ []
unfolding step submit_order is_welfare_query get load_cart exceeds to_number failed submission
tried_pending = refl

tried_visited : visited tried.log ≡ "A1" ∷ []
unfolding step submit_order is_welfare_query get load_cart exceeds to_number failed submission
tried_visited = refl

run-visits_example :
    pending tried.stage ++ visited tried.log
    ≡ orders_created plain some [] second_try (start cart) []
run-visits_example = run-visits plain some [] second_try cart

step-storage_example :
    (step plain some [] paid tried).storage
    ≡ (if pays_ordinary tried.stage paid then clear_cart tried.storage else tried.storage)
step-storage_example = step-storage plain some [] paid tried
