-- ===== src/Repositories/Properties/Detail.antt =====
-- The detail view of the mall, of src/storage/repositories/properties.ts.
use jtfp_cloudrun.Base.{
  ℕ, String, Bool, true, not, ◌&&◌, Option, none, some, List, [], ◌∷◌, map, filter, if◌then◌else◌,
  str_eq,
}
use jtfp_cloudrun.Js.{Value, str, int, bool, strict_eq, or_else}
use jtfp_cloudrun.Js.Objects.{Row, get}
use jtfp_cloudrun.Store.Table.{properties}
use jtfp_cloudrun.Store.State.{Process}
use jtfp_cloudrun.Store.Rows.{find_one}
use jtfp_cloudrun.Utils.Jwt.{split}
use jtfp_cloudrun.Repositories.Properties.{mall_title, number_of}

-- The object that the view gives: its scalar fields, the images, and the tabs of its module_config.
pub record Detail : Type 0 where
  pub fields : Row
  pub images : List String
  pub tabs : List Row

abbrev tab : String → String → ℕ → Row
tab key name order =
    ("key", str key) ∷ ("name", str name) ∷ ("visible", bool true) ∷ ("order", int order) ∷ []

abbrev pub default_tabs : List Row
default_tabs =
    tab "property" "房源" 1 ∷ tab "auction" "拍卖" 2 ∷ tab "loan" "金融" 3 ∷ tab "tax" "税费" 4 ∷ []

-- (r) => r.id === id && r.status === 1
abbrev pub is_on_sale : Value → Row → Bool
is_on_sale id r = strict_eq (get "id" r) id && strict_eq (get "status" r) (int 1)

-- `trim`, and JSON.parse on a text that holds a list of texts, or an object with a list of tabs;
-- `none` where it throws.
module _ (trim : String → String) (parse_images : String → Option (List String))
    (parse_tabs : String → Option (List Row)) where
  abbrev parsed_or_split : String → Option (List String) → List String
  parsed_or_split text (some images) = images
  parsed_or_split text none = filter (λ image. not (str_eq image "")) (map trim (split b',' text))

  unfoldable pub images_of : Value → List String
  images_of (str text) = if str_eq text "" then [] else parsed_or_split text (parse_images text)
  images_of v = []

  abbrev parsed_tabs : Option (List Row) → List Row
  parsed_tabs none = default_tabs
  parsed_tabs (some tabs) = tabs

  -- A config that is no text is outside the model, since a field holds scalars.
  unfoldable pub tabs_of : Value → List Row
  tabs_of (str text) = if str_eq text "" then default_tabs else parsed_tabs (parse_tabs text)
  tabs_of v = default_tabs

  unfoldable pub mall_detail : Row → Detail
  mall_detail r = record {
    fields =
        ("id", get "id" r)
        ∷ ("title", mall_title trim r)
        ∷ ("price_cent", number_of (or_else (get "price_cent" r) (int 0)))
        ∷ ("cover_url", get "cover_url" r)
        ∷ ("description", get "description" r)
        ∷ ("stock", number_of (or_else (get "stock" r) (int 1)))
        ∷ ("community_name", get "community_name" r)
        ∷ ("house_type", get "house_type" r)
        ∷ ("building_area", get "building_area" r)
        ∷ ("floor_info", get "floor_info" r)
        ∷ ("building_year", get "building_year" r)
        ∷ ("decoration_status", get "decoration_status" r)
        ∷ ("property_status", get "property_status" r)
        ∷ ("property_type", get "property_type" r)
        ∷ ("detail_address", get "detail_address" r)
        ∷ ("school_district", get "school_district" r)
        ∷ ("business_circle", get "business_circle" r)
        ∷ ("starting_price", get "starting_price" r)
        ∷ ("starting_unit_price", get "starting_unit_price" r)
        ∷ ("evaluation_total_price", get "evaluation_total_price" r)
        ∷ ("evaluation_unit_price", get "evaluation_unit_price" r)
        ∷ ("market_total_price", get "market_total_price" r)
        ∷ ("market_unit_price", get "market_unit_price" r)
        ∷ ("loan_70_percent", get "loan_70_percent" r)
        ∷ ("loan_80_percent", get "loan_80_percent" r)
        ∷ ("loan_90_percent", get "loan_90_percent" r)
        ∷ ("profit_space", get "profit_space" r)
        ∷ ("auction_time", get "auction_time" r)
        ∷ ("bidding_phase", get "bidding_phase" r)
        ∷ ("auction_platform", get "auction_platform" r)
        ∷ ("auction_deposit", get "auction_deposit" r)
        ∷ ("deed_tax_rate", get "deed_tax_rate" r)
        ∷ ("deed_tax_amount", get "deed_tax_amount" r)
        ∷ ("vat_rate", get "vat_rate" r)
        ∷ ("vat_amount", get "vat_amount" r)
        ∷ ("income_tax_rate", get "income_tax_rate" r)
        ∷ ("income_tax_amount", get "income_tax_amount" r)
        ∷ ("created_at", get "created_at" r)
        ∷ ("updated_at", get "updated_at" r)
        ∷ [];
    images = images_of (get "images" r);
    tabs = tabs_of (get "module_config" r);
  }

  abbrev detail_found : Option Row → Option Detail
  detail_found none = none
  detail_found (some r) = some (mall_detail r)

  -- findMallById
  unfoldable pub find_mall_by_id : Value → String → Process → Option Detail × Process
  find_mall_by_id id now s =
      let (found, s1) = find_one properties (is_on_sale id) now s in (detail_found found, s1)
