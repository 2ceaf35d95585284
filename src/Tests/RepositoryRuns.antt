-- ===== src/Tests/RepositoryRuns.antt =====
-- Orders, stock and welfare codes of the small shop.
use jtfp_cloudrun.Base.{ℕ, ◌+◌, ◌-◌, String, ◌≡◌, refl, min, some, List, [], ◌∷◌, arith, length}
use jtfp_cloudrun.Base.Int.{pos}
use jtfp_cloudrun.Js.{undefined, str, int}
use jtfp_cloudrun.Js.Objects.{Row, get, put}
use jtfp_cloudrun.Store.Table.{orders, table_eq}
use jtfp_cloudrun.Store.State.{rows, state_ops}
use jtfp_cloudrun.Store.Rows.{row_ops}
use jtfp_cloudrun.Repositories.Paging.Laws.{pages, pages-all}
use jtfp_cloudrun.Repositories.Products.Stock.{sku_at, sell_each, sell_each-conserves}
use jtfp_cloudrun.Repositories.WelfareCodes.Usage.{code_at, HasUses, use_each, use_each-eq-min}
use jtfp_cloudrun.Store.Transaction.{returns}
use jtfp_cloudrun.Repositories.Users.{Login, find_or_create_user_by_identity}
use jtfp_cloudrun.Repositories.Users.Logins.{find_or_create_user_by_identity-known}
use jtfp_cloudrun.Tests.Data.{user_1, identity_1, shop, shop-IsWellFormed, sku_1, code_1, code_2}

abbrev day : String
day = "2024-05-01"

all : Unit {0}
unfolding state_ops row_ops get put table_eq
all = tt

sku_stored : sku_at (pos 1) shop ≡ some sku_1
unfolding all
sku_stored = refl

sku_stock : get "stock" sku_1 ≡ int 5
unfolding all
sku_stock = refl

abbrev sales : List (ℕ × String)
sales = (3, day) ∷ (4, day) ∷ (2, day) ∷ []

sell_each-conserves_example :
    (left : Row) × (m : ℕ) × (sku_at (pos 1) (sell_each (pos 1) sales shop).1 ≡ some left)
    × (get "stock" left ≡ int m)
    × ((sell_each (pos 1) sales shop).0 + m ≡ 5)
sell_each-conserves_example = sell_each-conserves (pos 1) sales shop sku_1 5 sku_stored sku_stock

code_1_stored : code_at (str "FL1") shop ≡ some code_1
unfolding all
code_1_stored = refl

code_2_stored : code_at (str "FL2") shop ≡ some code_2
unfolding all
code_2_stored = refl

code_1_uses : HasUses code_1 1 2
unfolding all
code_1_uses = record { used_count = refl; total_count = refl }

code_2_uses : HasUses code_2 2 2
unfolding all
code_2_uses = record { used_count = refl; total_count = refl }

use_each-eq-min_example :
    (use_each (str "FL1") (day ∷ day ∷ day ∷ []) shop).0
    ≡ min (length (day ∷ day ∷ day ∷ [])) (2 - 1)
use_each-eq-min_example =
    use_each-eq-min (str "FL1") (day ∷ day ∷ day ∷ []) shop code_1 1 2 shop-IsWellFormed
      code_1_stored code_1_uses

pages-all_example : pages 2 0 (code_1 ∷ code_2 ∷ []) ≡ code_1 ∷ code_2 ∷ []
pages-all_example = pages-all 2 0 (code_1 ∷ code_2 ∷ []) (omega arith)

abbrev login : Login
login = record {
  provider = str "wechat_mini";
  openid = str "o1";
  unionid = undefined;
  session_key = str "k";
  nickname = undefined;
  avatar_url = undefined;
}

find_or_create_user_by_identity-known_example :
    ((find_or_create_user_by_identity login day shop).0 ≡ returns user_1)
    × (rows orders (find_or_create_user_by_identity login day shop).1 ≡ rows orders shop)
unfolding all
find_or_create_user_by_identity-known_example =
    find_or_create_user_by_identity-known login day shop identity_1 user_1 orders refl refl refl
