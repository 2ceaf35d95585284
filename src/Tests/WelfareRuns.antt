-- ===== src/Tests/WelfareRuns.antt =====
-- Welfare codes of the small shop, as its clients use them.
use jtfp_cloudrun.Base.{String, ◌≡◌, refl, true, some, [], ◌∷◌}
use jtfp_cloudrun.Js.{str, js_le, to_number}
use jtfp_cloudrun.Js.Objects.{Row, get}
use jtfp_cloudrun.Store.State.{state_ops}
use jtfp_cloudrun.Store.Rows.{row_ops}
use jtfp_cloudrun.Http.{parsed}
use jtfp_cloudrun.Repositories.WelfareCodes.{validate_code, validate, find_by_code}
use jtfp_cloudrun.Repositories.WelfareCodes.Usage.{code_at, HasUses, used_row}
use jtfp_cloudrun.Routes.WelfareCodes.{post_use, use_reply}
use jtfp_cloudrun.Routes.WelfareCodes.Laws.{IsUsable, validate_code-valid, post_use-counts}
use jtfp_cloudrun.Tests.Data.{shop, shop-IsWellFormed, code_1}

abbrev day : String
day = "2024-05-01"

abbrev body_1 : Row
body_1 = ("code", str "FL1") ∷ []

abbrev body_2 : Row
body_2 = ("code", str "FL2") ∷ []

all : Unit {0}
unfolding state_ops row_ops get validate_code validate find_by_code js_le to_number
all = tt

code_1_uses : HasUses code_1 1 2
unfolding all
code_1_uses = record { used_count = refl; total_count = refl }

code_1-IsUsable : IsUsable day code_1
unfolding all
code_1-IsUsable = record { enabled = refl; has_uses = refl; started = refl; not_ended = refl }

validate_code-valid_example : (code_at (str "FL1") shop ≡ some code_1) × IsUsable day code_1
unfolding all
validate_code-valid_example = validate_code-valid (str "FL1") day shop code_1 refl

post_use-counts_example :
    ((post_use (parsed body_1) day shop).0 ≡ use_reply true)
    × (code_at (get "code" body_1) (post_use (parsed body_1) day shop).1
        ≡ some (used_row code_1 2 day))
unfolding all
post_use-counts_example =
    post_use-counts body_1 day shop code_1 1 2 shop-IsWellFormed refl code_1_uses code_1-IsUsable
