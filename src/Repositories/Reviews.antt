-- ===== src/Repositories/Reviews.antt =====
-- src/storage/repositories/reviews.ts, less the average rating, which is a fraction.
use jtfp_cloudrun.Base.{ℕ, String, Bool, ◌&&◌, not, Option, List, length}
use jtfp_cloudrun.Base.Int.{ℤ}
use jtfp_cloudrun.Js.{Value, undefined, int, strict_eq, truthy, nullish}
use jtfp_cloudrun.Js.Objects.{Row, get, put}
use jtfp_cloudrun.Store.Table.{reviews}
use jtfp_cloudrun.Store.State.{Process, get_table}
use jtfp_cloudrun.Store.Rows
use jtfp_cloudrun.Store.Rows.{insert, count}
use jtfp_cloudrun.Repositories.Paging.{Page, filter_if, page_of, newest_first, sort_table}

pub record ListQuery : Type 0 where
  pub page : Option ℤ
  pub page_size : Option ℤ
  pub product_id : Value
  pub user_id : Value
  pub status : Value

unfoldable pub list_filters : ListQuery → List Row → List Row
list_filters q rs =
    let rs1 =
      filter_if (truthy q.product_id) (λ r. strict_eq (get "product_id" r) q.product_id) rs in
    let rs2 = filter_if (truthy q.user_id) (λ r. strict_eq (get "user_id" r) q.user_id) rs1 in
    filter_if (not (strict_eq q.status undefined)) (λ r. strict_eq (get "status" r) q.status) rs2

unfoldable pub is_unfiltered : ListQuery → Bool
is_unfiltered q =
    not (truthy q.product_id) && not (truthy q.user_id) && strict_eq q.status undefined

-- list
unfoldable pub list : ListQuery → String → Process → Page × Process
list q now s =
    let (all, s1) = get_table reviews now s in
    let matching = list_filters q all in
    let (sorted, s2) = sort_table reviews (is_unfiltered q) newest_first matching s1 in
    (record { total = length matching; page_rows = page_of q.page q.page_size sorted }, s2)

-- findById
unfoldable pub find_by_id : Value → String → Process → Option Row × Process
find_by_id id = Rows.find_by_id reviews id

-- create
unfoldable pub create : Row → String → Process → Row × Process
create fields now s =
    insert reviews
      (put "status" (nullish (get "status" fields) (int 1))
        (put "rating" (nullish (get "rating" fields) (int 5)) fields))
      now s

-- update
unfoldable pub update : Value → Row → String → Process → Bool × Process
update id fields now s = Rows.update reviews id fields now s

-- remove
unfoldable pub remove : Value → String → Process → Bool × Process
remove id now s = Rows.remove reviews id now s

-- getReviewCount
unfoldable pub get_review_count : Value → String → Process → ℕ × Process
get_review_count id =
    count reviews (λ r. strict_eq (get "product_id" r) id && strict_eq (get "status" r) (int 1))
