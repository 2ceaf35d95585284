-- ===== src/Routes/AdminCategories/Laws.antt =====
-- The deletion of a category.
use jtfp_cloudrun.Base.{String, ◌≡◌, refl, Option, none, some, find, if◌then◌else◌}
use jtfp_cloudrun.Js.{Value, strict_eq}
use jtfp_cloudrun.Js.Objects.{Row, get}
use jtfp_cloudrun.Store.Table.{Table, table_eq, categories, properties}
use jtfp_cloudrun.Store.State.{Process, rows}
use jtfp_cloudrun.Store.Rows.{remove_first, has_id}
use jtfp_cloudrun.Store.Views.{rows-load_data}
use jtfp_cloudrun.Store.Changes.{find_one-rows, rows-remove}
use jtfp_cloudrun.Http.{sent, status_json, error_only}
use jtfp_cloudrun.Repositories.Categories
use jtfp_cloudrun.Repositories.Properties.{exists_by_category_id}
use jtfp_cloudrun.Routes.AdminCategories.{delete_category}

-- The first property of a category.
abbrev pub property_in : Value → Process → Option Row
property_in id s = find (λ r. strict_eq (get "category_id" r) id) (rows properties s)

module _ (id : Value) (now : String) (s : Process) where
  -- A category that a property refers to is not deleted: the answer is 400, and every table is as
  -- it was.
  pub delete_category-used :
      (r : Row) (t : Table)
      → property_in id s ≡ some r
      → ((delete_category id now s).0 ≡ sent (status_json 400 (error_only "该分类下已有房源，无法删除")))
        × (rows t (delete_category id now s).1 ≡ rows t s)
  unfolding delete_category exists_by_category_id
  delete_category-used r t h = rw (find_one-rows, h) (refl, rows-load_data t now s)

  -- A category that no property refers to is deleted, and nothing else: of the categories the first
  -- row with the identifier is gone, and every other table is as it was.
  pub delete_category-unused :
      (t : Table)
      → property_in id s ≡ none
      → rows t (delete_category id now s).1
        ≡ (if table_eq categories t then remove_first (has_id id) (rows categories s) else rows t s)
  unfolding delete_category exists_by_category_id Categories.remove
  delete_category-unused t h =
      rw (find_one-rows, h) (rw (rows-remove, rows-load_data, rows-load_data))
