-- ===== src/Repositories/Categories.antt =====
-- src/storage/repositories/categories.ts
use jtfp_cloudrun.Base.{String, Bool, not, Option, List, [], ◌∷◌, map, true, if◌then◌else◌}
use jtfp_cloudrun.Base.Sort.{sort}
use jtfp_cloudrun.Js.{Value, undefined, null, int, strict_eq, or_else, nullish, exceeds}
use jtfp_cloudrun.Js.Objects.{Row, get, put}
use jtfp_cloudrun.Store.Table.{categories}
use jtfp_cloudrun.Store.State.{Process, get_table}
use jtfp_cloudrun.Store.Rows
use jtfp_cloudrun.Store.Rows.{insert, find_all}
use jtfp_cloudrun.Repositories.Paging.{sort_table}

-- The comparator of `list` and `listEnabled`: sort_order DESC, id ASC.
unfoldable pub category_order : Row → Row → Bool
category_order a b =
    if not (strict_eq (get "sort_order" b) (get "sort_order" a))
    then not (exceeds (get "sort_order" b) (get "sort_order" a))
    else not (exceeds (get "id" a) (get "id" b))

-- list: the table's own array is sorted
unfoldable pub list : String → Process → List Row × Process
list now s =
    let (rs, s1) = get_table categories now s in sort_table categories true category_order rs s1

abbrev pub menu_entry : Row → Row
menu_entry r = ("id", get "id" r) ∷ ("name", get "name" r) ∷ ("icon", get "icon" r) ∷ []

-- listEnabled
unfoldable pub list_enabled : String → Process → List Row × Process
list_enabled now s =
    let (rs, s1) = find_all categories (λ r. strict_eq (get "status" r) (int 1)) now s in
    (map menu_entry (sort category_order rs), s1)

-- findById
unfoldable pub find_by_id : Value → String → Process → Option Row × Process
find_by_id id = Rows.find_by_id categories id

-- The row that `create` hands to the store.
abbrev pub category_of : Row → Row
category_of fields =
    ("name", get "name" fields)
    ∷ ("icon", or_else (get "icon" fields) null)
    ∷ ("sort_order", or_else (get "sort_order" fields) (int 0))
    ∷ ("status", nullish (get "status" fields) (int 1))
    ∷ []

-- create
unfoldable pub create : Row → String → Process → Row × Process
create fields now s = insert categories (category_of fields) now s

-- update: an icon that is null becomes undefined
unfoldable pub update : Value → Row → String → Process → Bool × Process
update id fields now s =
    let clean =
      if strict_eq (get "icon" fields) null then put "icon" undefined fields else fields in
    Rows.update categories id clean now s

-- remove
unfoldable pub remove : Value → String → Process → Bool × Process
remove id now s = Rows.remove categories id now s
