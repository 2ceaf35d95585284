-- ===== src/Tests/Data.antt =====
-- A small shop: an order and its item, a user with an identity, a SKU, a welfare code that is used up to one use, a category
-- that a property refers to, and one that none does.
use jtfp_cloudrun.Base.{◌≡◌, ◌≢◌, refl, true, false, none, some, List, [], ◌∷◌, arith}
use jtfp_cloudrun.Js.{str, int}
use jtfp_cloudrun.Js.Objects.{Row, get}
use jtfp_cloudrun.Store.Table.{
  Table, properties, categories, users, user_identities, orders, order_items, order_change_logs,
  products, product_skus, reviews, welfare_codes, welfare_code_items, admins,
}
use jtfp_cloudrun.Store.State.{Process, StoreData, missing, parsed, state_ops, rows, next}
use jtfp_cloudrun.Store.Integrity.{IsWellFormed, AreIds}
use jtfp_cloudrun.Store.Ids.{HasIdBelow}

abbrev pub no_rows : Table → List Row
no_rows t = []

abbrev pub default_data : StoreData
default_data = record {
  meta = record { next_ids = λ t. none; created_at = ""; updated_at = "" };
  tables = no_rows;
}

-- A process that has loaded nothing, and has no file.
abbrev pub fresh : Process
fresh = record {
  cache = none;
  dirty = false;
  timer = false;
  file = missing;
  default_data = default_data;
  shared = λ t. false;
  shared_meta = false;
}

abbrev pub order_1 : Row
order_1 =
    ("id", int 1)
    ∷ ("order_no", str "JT1")
    ∷ ("user_id", int 7)
    ∷ ("status", str "PENDING_PAYMENT")
    ∷ []

abbrev pub item_1 : Row
item_1 = ("id", int 1) ∷ ("order_no", str "JT1") ∷ ("quantity", int 2) ∷ []

abbrev pub sku_1 : Row
sku_1 = ("id", int 1) ∷ ("stock", int 5) ∷ []

abbrev pub code_1 : Row
code_1 =
    ("id", int 1)
    ∷ ("code", str "FL1")
    ∷ ("status", int 1)
    ∷ ("used_count", int 1)
    ∷ ("total_count", int 2)
    ∷ []

abbrev pub code_2 : Row
code_2 = ("id", int 2) ∷ ("code", str "FL2") ∷ ("used_count", int 2) ∷ ("total_count", int 2) ∷ []

abbrev pub category_1 : Row
category_1 = ("id", int 1) ∷ ("name", str "住宅") ∷ []

abbrev pub category_2 : Row
category_2 = ("id", int 2) ∷ ("name", str "公寓") ∷ []

abbrev pub property_1 : Row
property_1 = ("id", int 1) ∷ ("category_id", int 1) ∷ []

abbrev pub user_1 : Row
user_1 = ("id", int 1) ∷ ("openid", str "o1") ∷ []

abbrev pub identity_1 : Row
identity_1 =
    ("id", int 1) ∷ ("user_id", int 1) ∷ ("provider", str "wechat_mini") ∷ ("openid", str "o1") ∷ []

abbrev pub shop_rows : Table → List Row
shop_rows orders = order_1 ∷ []
shop_rows order_items = item_1 ∷ []
shop_rows product_skus = sku_1 ∷ []
shop_rows welfare_codes = code_1 ∷ code_2 ∷ []
shop_rows categories = category_1 ∷ category_2 ∷ []
shop_rows properties = property_1 ∷ []
shop_rows users = user_1 ∷ []
shop_rows user_identities = identity_1 ∷ []
shop_rows _ = []

abbrev pub shop_data : StoreData
shop_data = record {
  meta = record { next_ids = λ t. some 3; created_at = ""; updated_at = "" };
  tables = shop_rows;
}

-- A process that has loaded the shop, with something unsaved.
abbrev pub shop : Process
shop = record {
  cache = some shop_data;
  dirty = true;
  timer = true;
  file = missing;
  default_data = default_data;
  shared = λ t. false;
  shared_meta = false;
}

-- A process that has loaded nothing, over a file without tables.
abbrev pub bare : Process
bare = record fresh { file = parsed (some default_data.meta) (λ t. none) }

first : (r : Row) → get "id" r ≡ int 1 → HasIdBelow 3 r
first r e = (1, e, omega arith, omega arith)

second : (r : Row) → get "id" r ≡ int 2 → HasIdBelow 3 r
second r e = (2, e, omega arith, omega arith)

two_differ : (q r : Row) → get "id" q ≡ int 2 → get "id" r ≡ int 1 → get "id" q ≢ get "id" r
two_differ q r e f h = ground (arith, e, f, h)

shop_ids : (t : Table) → AreIds (next t shop) (rows t shop)
unfolding state_ops get
shop_ids orders = ((first order_1 refl, tt), (tt, tt))
shop_ids order_items = ((first item_1 refl, tt), (tt, tt))
shop_ids product_skus = ((first sku_1 refl, tt), (tt, tt))
shop_ids welfare_codes = (
  (first code_1 refl, (second code_2 refl, tt)),
  ((two_differ code_2 code_1 refl refl, tt), (tt, tt)),
)
shop_ids categories = (
  (first category_1 refl, (second category_2 refl, tt)),
  ((two_differ category_2 category_1 refl refl, tt), (tt, tt)),
)
shop_ids properties = ((first property_1 refl, tt), (tt, tt))
shop_ids users = ((first user_1 refl, tt), (tt, tt))
shop_ids user_identities = ((first identity_1 refl, tt), (tt, tt))
shop_ids order_change_logs = (tt, tt)
shop_ids products = (tt, tt)
shop_ids reviews = (tt, tt)
shop_ids welfare_code_items = (tt, tt)
shop_ids admins = (tt, tt)

pub shop-IsWellFormed : IsWellFormed shop
shop-IsWellFormed = record { ids = shop_ids }
