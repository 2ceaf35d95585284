-- ===== src/Repositories/Orders/Laws.antt =====
-- What the operations on orders do to every table.
use jtfp_cloudrun.Base.{
  String, ◌≡◌, ◌∙◌, Option, none, some, [], ◌∷◌, ◌++◌, find, filter, if◌then◌else◌, Option-cases,
  inl, inr,
}
use jtfp_cloudrun.Js.{Value}
use jtfp_cloudrun.Js.Objects.{Row, get, spread}
use jtfp_cloudrun.Store.Table.{Table, table_eq, orders, order_items, order_change_logs}
use jtfp_cloudrun.Store.State.{Process, rows, next, load_data}
use jtfp_cloudrun.Store.Rows.{update_first, updated_row, has_id, new_row}
use jtfp_cloudrun.Store.Views.{rows-load_data, next-load_data, rows-insert}
use jtfp_cloudrun.Store.Changes.{find_one-rows, find_all-rows, next-update, rows-update}
use jtfp_cloudrun.Repositories.Orders.{
  has_order_no, find_by_order_no, update_status, get_order_items, log_change, log_row,
}

-- The order of a number, as the process would find it.
abbrev pub order_at : Value → Process → Option Row
order_at number s = find (has_order_no number) (rows orders s)

module _ (number : Value) (now : String) (s : Process) where
  pub find_by_order_no-rows : find_by_order_no number now s ≡ (order_at number s, load_data now s)
  unfolding find_by_order_no
  find_by_order_no-rows = find_one-rows orders now s (has_order_no number)

  pub get_order_items-rows :
      get_order_items number now s
      ≡ (filter (has_order_no number) (rows order_items s), load_data now s)
  unfolding get_order_items
  get_order_items-rows = find_all-rows order_items now s (has_order_no number)

  pub rows-update_status :
      (u : Table) (status : Value) (extra order : Row)
      → order_at number s ≡ some order
      → rows u (update_status number status extra now s).1 ≡ (
          if table_eq orders u
          then update_first
              (has_id (get "id" order))
              (updated_row (spread (("status", status) ∷ []) extra) now)
              (rows orders s)
          else rows u s)
  unfolding update_status
  rows-update_status u status extra order h =
      rw (find_by_order_no-rows, h) (rw (rows-update, rows-load_data, rows-load_data))

  pub rows-update_status-none :
      (u : Table) (status : Value) (extra : Row)
      → order_at number s ≡ none
      → rows u (update_status number status extra now s).1 ≡ rows u s
  unfolding update_status
  rows-update_status-none u status extra h = rw (find_by_order_no-rows, h) (rows-load_data u now s)

  pub rows-log_change :
      (u : Table) (field old new operator : Value)
      → rows u (log_change number field old new operator now s) ≡ (
          if table_eq order_change_logs u
          then rows order_change_logs s
            ++ new_row (log_row number field old new operator) (next order_change_logs s) now ∷ []
          else rows u s)
  unfolding log_change
  rows-log_change u field old new operator = rows-insert order_change_logs u now s _

  pub next-update_status :
      (u : Table) (status : Value) (extra : Row)
      → next u (update_status number status extra now s).1 ≡ next u s
  unfolding update_status
  next-update_status u status extra = elim (Option-cases (order_at number s)) [
    | inl e ↦ rw (find_by_order_no-rows, e) (next-load_data u now s)
    | inr (order, e) ↦
        rw (find_by_order_no-rows, e) (next-update _ u now _ _ _ ∙ next-load_data u now s)
  ]

  pub order_at-load_data : order_at number (load_data now s) ≡ order_at number s
  order_at-load_data = rw rows-load_data
