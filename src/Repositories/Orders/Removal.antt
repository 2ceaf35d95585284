-- ===== src/Repositories/Orders/Removal.antt =====
-- The removal of an order.
use jtfp_cloudrun.Base.{
  String, ◌≡◌, refl, ◌∙◌, Bool, true, false, not, none, some, List, [], ◌∷◌, filter, Bool-cases,
  inl, inr,
}
use jtfp_cloudrun.Js.{Value}
use jtfp_cloudrun.Js.Objects.{Row, get}
use jtfp_cloudrun.Store.Table.{Table, table_eq, orders, order_items}
use jtfp_cloudrun.Store.State.{Process, rows, next, load_data}
use jtfp_cloudrun.Store.Rows.{has_id, remove_first}
use jtfp_cloudrun.Store.Views.{rows-load_data}
use jtfp_cloudrun.Store.Changes.{rows-remove, rows-remove_where, remove-has}
use jtfp_cloudrun.Store.Finds.{has-own}
use jtfp_cloudrun.Store.Integrity.{IsWellFormed}
use jtfp_cloudrun.Repositories.Orders.{has_order_no, remove, remove_found, get_order_items}
use jtfp_cloudrun.Repositories.Orders.Laws.{order_at, find_by_order_no-rows, get_order_items-rows}

filter-not {ℓ} :
    {A : Type ℓ} (p : A → Bool) (xs : List A) → filter p (filter (λ x. not (p x)) xs) ≡ []
filter-not p [] = refl
filter-not p (x ∷ xs) = elim (Bool-cases (p x)) [
  | inl e ↦ rw e (filter-not p xs)
  | inr e ↦ rw e (rw e (filter-not p xs))
]

module _ (number : Value) (now : String) (s : Process) where
  remove-rows : remove number now s ≡ remove_found (order_at number s) number now (load_data now s)
  unfolding remove
  remove-rows = rw find_by_order_no-rows

  -- An order number that is not stored removes nothing, and the answer is false.
  pub remove-unknown :
      (t : Table)
      → order_at number s ≡ none
      → ((remove number now s).0 ≡ false) × (rows t (remove number now s).1 ≡ rows t s)
  remove-unknown t h = rw (remove-rows, h) (refl, rows-load_data t now s)

  -- In a well-formed process, the removal of a stored order is answered with true, removes from the
  -- orders the first row with its identifier, and leaves no item of its number.
  pub remove-removes :
      (later : String) (order : Row)
      → IsWellFormed s
      → order_at number s ≡ some order
      → ((remove number now s).0 ≡ true)
        × (rows orders (remove number now s).1
            ≡ remove_first (has_id (get "id" order)) (rows orders s))
        × ((get_order_items number later (remove number now s).1).0 ≡ [])
  unfolding table_eq
  remove-removes later order w h =
      rw (remove-rows, h, get_order_items-rows)
        (
          remove-has orders now _ (get "id" order)
              ∙ rw (rows-remove_where, rows-load_data)
                  (has-own (next orders s) (has_order_no number) (rows orders s) order
                    (w.ids orders).0 h),
          rw (rows-remove, rows-remove_where, rows-load_data),
          rw (rows-remove, rows-remove_where, rows-load_data)
              (filter-not (has_order_no number) (rows order_items s)),
        )
