-- ===== src/Repositories/Paging.antt =====
-- What the `list` functions share: optional filters, the order of creation, and the page.
-- A number of a query is `none` where the program has undefined or NaN.
pub mod Laws
use jtfp_cloudrun.Base.{ℕ, Bool, Option, none, some, List, filter, if◌then◌else◌}
use jtfp_cloudrun.Base.Int.{ℤ, pos, ◌+ℤ◌, ◌-ℤ◌, ◌*ℤ◌, leb_ℤ, eq_ℤ}
use jtfp_cloudrun.Base.Sort.{sort}
use jtfp_cloudrun.Base.Slice.{slice}
use jtfp_cloudrun.Js.{str, or_else, text_of}
use jtfp_cloudrun.Js.Text.{leb_text}
use jtfp_cloudrun.Js.Objects.{Row, get}
use jtfp_cloudrun.Store.Table.{Table}
use jtfp_cloudrun.Store.State.{Process, write_rows}

pub record Page : Type 0 where
  pub total : ℕ
  pub page_rows : List Row

-- if (q) rows = rows.filter(p)
abbrev pub filter_if : Bool → (Row → Bool) → List Row → List Row
filter_if asked p rs = if asked then filter p rs else rs

-- n || d on numbers
abbrev pub int_or : Option ℤ → ℤ → ℤ
int_or none d = d
int_or (some n) d = if eq_ℤ n (pos 0) then d else n

abbrev pub min_ℤ : ℤ → ℤ → ℤ
min_ℤ a b = if leb_ℤ a b then a else b

-- Math.min(query.pageSize || 20, 100)
unfoldable pub page_size : Option ℤ → ℤ
page_size q = min_ℤ (int_or q (pos 20)) (pos 100)

-- rows.slice(offset, offset + pageSize), with offset = (page - 1) * pageSize
unfoldable pub page_of : Option ℤ → Option ℤ → List Row → List Row
page_of page size rs =
    let offset = (int_or page (pos 1) -ℤ pos 1) *ℤ page_size size in
    slice offset (offset +ℤ page_size size) rs

-- (b.created_at || '').localeCompare(a.created_at || '') <= 0. Times are ISO texts, on which the
-- order of the locale is the order of the characters.
unfoldable pub newest_first : Row → Row → Bool
newest_first a b =
    leb_text (text_of (or_else (get "created_at" b) (str "")))
      (text_of (or_else (get "created_at" a) (str "")))

-- `rows.sort(…)` on what `getTable` gave and the filters left: where no filter was asked for, the
-- array is the table's own, and the table is put in order.
unfoldable pub sort_table :
    Table → Bool → (Row → Row → Bool) → List Row → Process → List Row × Process
sort_table t own leq rs s =
    let sorted = sort leq rs in (sorted, if own then write_rows t sorted s else s)
