-- ===== src/Store/Integrity/Lookups.antt =====
-- Reading back by identifier what was written.
use mathlib.Core.Option
use jtfp_cloudrun.Base.{String, ◌≡◌, Option, none, some, if◌then◌else◌, find, ap}
use jtfp_cloudrun.Base.Int.{ℤ, pos}
use jtfp_cloudrun.Js.{num, strict_eq}
use jtfp_cloudrun.Js.Objects.{Row, HasNot}
use jtfp_cloudrun.Store.Table.{Table, table_eq_refl}
use jtfp_cloudrun.Store.State.{Process, rows, next}
use jtfp_cloudrun.Store.Rows.{insert, new_row, update, updated_row, has_id, remove, find_by_id}
use jtfp_cloudrun.Store.Views.{rows-insert, insert-new_row}
use jtfp_cloudrun.Store.Changes.{rows-update, rows-remove, find_by_id-rows}
use jtfp_cloudrun.Store.Ids.{get-id-new_row, get-id-updated_row}
use jtfp_cloudrun.Store.Finds.{find-append, find-update_first, find-remove_first}
use jtfp_cloudrun.Store.Integrity.{IsWellFormed}

-- `findById` at a number, as a value.
abbrev pub found : Table → ℤ → String → Process → Option Row
found t i now s = (find_by_id t (num i) now s).0

found-rows :
    (t : Table) (i : ℤ) (now : String) (s : Process)
    → found t i now s ≡ find (has_id (num i)) (rows t s)
found-rows t i now s = ap (λ p. p.0) (find_by_id-rows t now s (num i))

module _ (t : Table) (now later : String) (s : Process) where
  -- In a well-formed process, after an insert a lookup finds the row that `insert` returned under
  -- the identifier that the table hands out next, and under every other what it found.
  pub found-insert :
      (i : ℤ) (r : Row)
      → IsWellFormed s
      → found t i later (insert t r now s).1 ≡ (
          if strict_eq (num (pos (next t s))) (num i)
          then some (insert t r now s).0
          else found t i later s)
  found-insert i r w =
      rw (found-rows, found-rows, rows-insert, table_eq_refl, insert-new_row)
        (find-append (next t s) i (rows t s) (new_row r (next t s) now) (w.ids t).0
          (get-id-new_row r (next t s) now))

  -- After an update that does not write the identifier, a lookup finds under the updated
  -- identifier the row with the updates and the new time, and under every other what it found.
  pub found-update :
      (i j : ℤ) (r : Row)
      → HasNot "id" r
      → found t i later (update t (num j) r now s).1 ≡ (
          if strict_eq (num j) (num i)
          then Option.map (updated_row r now) (found t i later s)
          else found t i later s)
  found-update i j r h =
      rw (found-rows, found-rows, rows-update, table_eq_refl)
        (find-update_first i j (updated_row r now) (rows t s) (λ q. get-id-updated_row r now q h))

  -- In a well-formed process, after a removal a lookup finds nothing under the removed identifier,
  -- and under every other what it found.
  pub found-remove :
      (i j : ℤ)
      → IsWellFormed s
      → found t i later (remove t (num j) now s).1
        ≡ (if strict_eq (num j) (num i) then none else found t i later s)
  found-remove i j w =
      rw (found-rows, found-rows, rows-remove, table_eq_refl)
        (find-remove_first i j (rows t s) (w.ids t).1)
