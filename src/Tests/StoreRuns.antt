-- ===== src/Tests/StoreRuns.antt =====
-- The file store on the small shop.
use jtfp_cloudrun.Base.{String, ◌≡◌, refl, Bool, true, none, List, [], ◌∷◌, ◌++◌, map}
use jtfp_cloudrun.Js.{str, int}
use jtfp_cloudrun.Js.Objects.{Row, get, put, json_copy}
use jtfp_cloudrun.Store.Table.{table_eq, orders, product_skus, reviews}
use jtfp_cloudrun.Store.State.{
  Process, rows, next, load_data, flush_now, flush_timer, state_ops, missing,
}
use jtfp_cloudrun.Store.Rows.{insert, row_ops}
use jtfp_cloudrun.Store.Integrity.{Write, insert_row, update_row, remove_row}
use jtfp_cloudrun.Store.Transaction.{Outcome, returns, throws, with_transaction, clear_all, restart}
use jtfp_cloudrun.Store.Transaction.Laws.{
  with_transaction-throws, with_transaction-returns, with_transaction-forgets, insert-survives,
  clear_all-keeps_shared,
}
use jtfp_cloudrun.Tests.Data.{shop, fresh, bare, default_data}

abbrev day : String
day = "2024-05-01"

abbrev review : Row
review = ("rating", int 5) ∷ []

abbrev paid : Row
paid = ("status", str "PAID") ∷ []

abbrev writes : List (String × Write)
writes =
    (day, insert_row reviews review)
    ∷ (day, update_row orders (int 1) paid)
    ∷ (day, remove_row product_skus (int 1))
    ∷ []

all : Unit {0}
unfolding state_ops row_ops get put table_eq json_copy
all = tt

insert_tests :
    ((insert reviews review day fresh).0
      ≡ ("rating", int 5) ∷ ("id", int 1) ∷ ("created_at", str day) ∷ ("updated_at", str day) ∷ [])
    × (next reviews (insert reviews review day fresh).1 ≡ 2)
unfolding all
insert_tests = (refl, refl)

-- A transaction that inserts a review, and one that then throws.
abbrev review_then_return : Process → Outcome Bool × Process
review_then_return s = (returns true, (insert reviews review day s).1)

abbrev review_then_throw : Process → Outcome Bool × Process
review_then_throw s = (throws "no stock", (insert reviews review day s).1)

with_transaction-throws_example :
    ((with_transaction review_then_throw day shop).0 ≡ throws "no stock")
    × (rows reviews (with_transaction review_then_throw day shop).1
        ≡ map json_copy (rows reviews shop))
with_transaction-throws_example =
    with_transaction-throws review_then_throw day shop "no stock" reviews refl

with_transaction-returns_example :
    ((with_transaction review_then_return day shop).0 ≡ returns true)
    × (rows reviews (with_transaction review_then_return day shop).1
        ≡ rows reviews (review_then_return (load_data day shop)).1)
    × (rows reviews (restart default_data (with_transaction review_then_return day shop).1)
        ≡ map json_copy (rows reviews (review_then_return (load_data day shop)).1))
    × (next reviews (restart default_data (with_transaction review_then_return day shop).1)
        ≡ next reviews (review_then_return (load_data day shop)).1)
unfolding all
with_transaction-returns_example =
    with_transaction-returns review_then_return day shop true default_data reviews refl refl refl

with_transaction-forgets_example :
    ((flush_timer day (with_transaction review_then_throw day shop).1).file ≡ missing)
    × ((flush_now day (with_transaction review_then_throw day shop).1).file ≡ missing)
unfolding all
with_transaction-forgets_example =
    with_transaction-forgets review_then_throw day shop "no stock" day refl refl

insert-survives_example :
    rows reviews (restart default_data (flush_now day (insert reviews review day fresh).1))
    ≡ map json_copy (rows reviews fresh ++ (insert reviews review day fresh).0 ∷ [])
insert-survives_example = insert-survives default_data reviews review day day fresh

clear_all-keeps_shared_example :
    rows reviews (clear_all day (insert reviews review day bare).1)
    ≡ map json_copy ([] ++ (insert reviews review day bare).0 ∷ [])
clear_all-keeps_shared_example =
    clear_all-keeps_shared reviews review day day bare default_data.meta (λ t. none) refl refl refl
