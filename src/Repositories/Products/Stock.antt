-- ===== src/Repositories/Products/Stock.antt =====
-- Sales of a SKU, and their return.

use jtfp_cloudrun.Base.{
  ℕ, ◌+◌, ◌-◌, ◌≤◌, ◌<◌, String, ◌≡◌, refl, ◌∙◌, true, false, Option, some, List, [], ◌∷◌,
  if◌then◌else◌, arith, inl, inr, find, ◌⊎◌,
}
use jtfp_cloudrun.Base.Int.{ℤ, ◌+ℤ◌, ◌-ℤ◌}
use jtfp_cloudrun.Js.{Value, num, str, int, strict_eq, js_lt, js_add, js_sub, to_number}
use jtfp_cloudrun.Js.Objects.{Row, get, put, spread, get-put}
use jtfp_cloudrun.Store.Table.{Table, table_eq, product_skus}
use jtfp_cloudrun.Store.State.{Process, rows, load_data}
use jtfp_cloudrun.Store.Rows
use jtfp_cloudrun.Store.Rows.{updated_row, has_id, has}
use jtfp_cloudrun.Store.Views.{rows-load_data}
use jtfp_cloudrun.Store.Ids.{get-id-updated_row}
use jtfp_cloudrun.Store.Finds.{find-update_first}
use jtfp_cloudrun.Store.Changes.{find_by_id-rows, update-has, find-has, rows-update}
use jtfp_cloudrun.Repositories.Products.{find_sku_by_id, decrease_stock, increase_stock}

js_lt-int : (m n : ℕ) → m < n → js_lt (int m) (int n) ≡ true
unfolding js_lt to_number
js_lt-int m n h = ground arith

not-js_lt-int : (m n : ℕ) → n ≤ m → js_lt (int m) (int n) ≡ false
unfolding js_lt to_number
not-js_lt-int m n h = ground arith

js_sub-int : (m n : ℕ) → n ≤ m → js_sub (int m) (int n) ≡ int (m - n)
unfolding js_sub to_number ◌-ℤ◌
js_sub-int m n h = ground arith

js_add-int : (m n : ℕ) → js_add (int m) (int n) ≡ int (m + n)
unfolding js_add to_number ◌+ℤ◌
js_add-int m n = ground arith

-- The SKU of a number, as the process would find it, and that its stock is `n`.
abbrev pub sku_at : ℤ → Process → Option Row
sku_at i s = find (has_id (num i)) (rows product_skus s)

abbrev pub restocked : Row → ℕ → String → Row
restocked sku n now = put "updated_at" (str now) (put "stock" (int n) sku)

set_stock :
    (i : ℤ) (v : Value) (now : String) (s : Process) (sku : Row)
    → sku_at i s ≡ some sku
    → ((Rows.update product_skus (num i) (("stock", v) ∷ []) now s).0 ≡ true)
      × (sku_at i (Rows.update product_skus (num i) (("stock", v) ∷ []) now s).1
          ≡ some (put "updated_at" (str now) (put "stock" v sku)))
unfolding table_eq spread updated_row
set_stock i v now s sku h = (
  update-has product_skus now s (num i) _ ∙ find-has (has_id (num i)) (rows product_skus s) sku h,
  rw rows-update (
      find-update_first i i (updated_row (("stock", v) ∷ []) now) (rows product_skus s)
        (λ r. get-id-updated_row (("stock", v) ∷ []) now r (refl, tt))
      ∙ rw (strict_eq_refl i, h)),
)
  where
    strict_eq_refl : (i : ℤ) → strict_eq (num i) (num i) ≡ true
    strict_eq_refl i = ground arith

stock-restocked : (sku : Row) (n : ℕ) (now : String) → get "stock" (restocked sku n now) ≡ int n
stock-restocked sku n now = simp get-put

module _ (i : ℤ) (q : ℕ) (now : String) (s : Process) (sku : Row) (n : ℕ)
    (stored : sku_at i s ≡ some sku) (stock : get "stock" sku ≡ int n) where
  -- A SKU that has the quantity in stock is sold: the answer is true, and its stock falls by the
  -- quantity, its time being that of the update and all else as it was.
  pub decrease_stock-sells :
      q ≤ n
      → ((decrease_stock (num i) (int q) now s).0 ≡ true)
        × (sku_at i (decrease_stock (num i) (int q) now s).1 ≡ some (restocked sku (n - q) now))
  unfolding decrease_stock find_sku_by_id
  decrease_stock-sells h =
      rw (find_by_id-rows, stored)
        (rw (stock, not-js_lt-int n q h, js_sub-int n q h)
          (set_stock i (int (n - q)) now (load_data now s) sku (rw rows-load_data stored)))

  -- A SKU that has less than the quantity is not sold: the answer is false, and every table is as
  -- it was.
  pub decrease_stock-refuses :
      (t : Table)
      → n < q
      → ((decrease_stock (num i) (int q) now s).0 ≡ false)
        × (rows t (decrease_stock (num i) (int q) now s).1 ≡ rows t s)
  unfolding decrease_stock find_sku_by_id
  decrease_stock-refuses t h =
      rw (find_by_id-rows, stored) (rw (stock, js_lt-int n q h) (refl, rows-load_data t now s))

  -- A return is accepted, and adds the quantity to the stock.
  pub increase_stock-adds :
      ((increase_stock (num i) (int q) now s).0 ≡ true)
      × (sku_at i (increase_stock (num i) (int q) now s).1 ≡ some (restocked sku (n + q) now))
  unfolding increase_stock find_sku_by_id
  increase_stock-adds =
      rw (find_by_id-rows, stored)
        (rw (stock, js_add-int n q)
          (set_stock i (int (n + q)) now (load_data now s) sku (rw rows-load_data stored)))

le_or_lt : (a b : ℕ) → (a ≤ b) ⊎ (b < a)
le_or_lt a b = omega arith

-- Sales of one SKU in turn, each with its time: how many pieces were sold.
unfoldable pub sell_each : ℤ → List (ℕ × String) → Process → ℕ × Process
sell_each i [] s = (0, s)
sell_each i ((q, now) ∷ sales) s =
    let (sold, s1) = decrease_stock (num i) (int q) now s in
    let (total, s2) = sell_each i sales s1 in ((if sold then q else 0) + total, s2)

-- Whatever is asked for and in what order, what was sold and what is left in stock add up to the
-- stock at the start: no sequence of sales sells more than there is.
pub sell_each-conserves :
    (i : ℤ) (sales : List (ℕ × String)) (s : Process) (sku : Row) (n : ℕ)
    → sku_at i s ≡ some sku
    → get "stock" sku ≡ int n
    → (left : Row) × (m : ℕ) × (sku_at i (sell_each i sales s).1 ≡ some left)
      × (get "stock" left ≡ int m)
      × ((sell_each i sales s).0 + m ≡ n)
unfolding sell_each
sell_each-conserves i [] s sku n h k = (sku, n, h, k, omega arith)
sell_each-conserves i ((q, now) ∷ sales) s sku n h k = elim (le_or_lt q n) [
  | inl enough ↦
      let (sold, after) = decrease_stock-sells i q now s sku n h k enough in
      let (left, m, e, f, g) =
        sell_each-conserves i sales (decrease_stock (num i) (int q) now s).1
          (restocked sku (n - q) now) (n - q) after (stock-restocked sku (n - q) now) in
      (left, m, e, f, rw sold (omega arith))
  | inr short ↦
      let (sold, same) = decrease_stock-refuses i q now s sku n h k product_skus short in
      let (left, m, e, f, g) =
        sell_each-conserves i sales (decrease_stock (num i) (int q) now s).1 sku n (rw same h) k in
      (left, m, e, f, rw sold (omega arith))
]
