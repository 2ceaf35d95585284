-- ===== src/Tests/ProductRuns.antt =====
-- The mini-program: a product's page, where a welfare good is asked for with a few codes.
use jtfp_cloudrun.Base.{String, ◌≡◌, refl, true, false, some, List, [], ◌∷◌}
use jtfp_cloudrun.Js.{str, int, bool, to_number}
use jtfp_cloudrun.Js.Objects.{Row, get, put}
use jtfp_cloudrun.Flcode.Upload.{is_code}
use jtfp_cloudrun.Miniapp.Url.{normalize_image_url}
use jtfp_cloudrun.Miniapp.Product.{
  View, start, update_display_price, first_digits, on_welfare_code_input, Event, loads, types,
  fires, answers, fails, step, run, buy_now, quoted,
}
use jtfp_cloudrun.Miniapp.Product.Laws.{
  complaint, buy_now-needs_quote, checkout_with, types-keeps_quote,
}

abbrev plain : String → String
plain s = s

abbrev gift : Row
gift = ("id", int 5) ∷ ("is_welfare", int 1) ∷ ("price_cent", int 9900) ∷ ("cover_url", str "") ∷ []

abbrev wrong_codes : List Event
wrong_codes =
    loads (some gift) []
    ∷ types "12 34 56"
    ∷ fires
    ∷ types "654321"
    ∷ fires
    ∷ fails 1 "福利码无效"
    ∷ answers 0 (("ok", bool false) ∷ [])
    ∷ []

abbrev shown_gift : Row
shown_gift = put "cover_url" (str (normalize_image_url plain (str ""))) gift

buy_now-needs_quote_example :
    buy_now plain (run plain wrong_codes start) ≡ complaint plain (run plain wrong_codes start)
unfolding get to_number put step on_welfare_code_input first_digits update_display_price is_code
buy_now-needs_quote_example = buy_now-needs_quote plain wrong_codes shown_gift refl refl refl

-- The page after the server has accepted a code, for 100 cents.
abbrev bargain : View
bargain = record start {
  product = some shown_gift;
  code = "123456";
  welfare = quoted plain (("ok", bool true) ∷ ("priceCent", int 100) ∷ []);
}

types-keeps_quote_example :
    buy_now plain (step plain (types "654321") bargain)
    ≡ checkout_with plain shown_gift (first_digits 6 "654321") bargain.welfare
unfolding get to_number first_digits put
types-keeps_quote_example = types-keeps_quote plain "654321" bargain shown_gift refl refl refl refl
