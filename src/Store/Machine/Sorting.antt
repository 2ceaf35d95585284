-- ===== src/Store/Machine/Sorting.antt =====
-- A list request that puts a table's own array in order.
use jtfp_cloudrun.Base.{
  ℕ, String, ◌≡◌, ◌≢◌, refl, sym, ap, Bool, List, [], ◌∷◌, if◌then◌else◌, All, Bool-cases, inl, inr,
}
use jtfp_cloudrun.Base.Sort.{sort, insert_sorted, insert_sorted-All, sort-All}
use jtfp_cloudrun.Js.Objects.{Row, get}
use jtfp_cloudrun.Store.Table.{Table, table_eq, table_eq→eq}
use jtfp_cloudrun.Store.State.{Process, rows, next, write_rows}
use jtfp_cloudrun.Store.Views.{cached-load_data, rows-place_loaded, next-place_loaded}
use jtfp_cloudrun.Store.Ids.{HasIdBelow, HasDistinctIds}
use jtfp_cloudrun.Store.Integrity.{IsWellFormed, AreIds, by_rows}
use jtfp_cloudrun.Store.Machine.{put_in_order}
use jtfp_cloudrun.Store.Machine.Sound.{IsSound, load_data-IsSound}

module _ (leq : Row → Row → Bool) where
  HasDistinctIds-insert :
      (x : Row) (xs : List Row)
      → All (λ q. get "id" q ≢ get "id" x) xs
      → HasDistinctIds xs
      → HasDistinctIds (insert_sorted leq x xs)
  unfolding insert_sorted
  HasDistinctIds-insert x [] h d = (tt, tt)
  HasDistinctIds-insert x (y ∷ ys) h d = elim (Bool-cases (leq x y)) [
    | inl e ↦ rw e (h, d)
    | inr e ↦ rw e (
      insert_sorted-All leq (λ q. get "id" q ≢ get "id" y) x ys (λ f. h.0 (sym f)) d.0,
      HasDistinctIds-insert x ys h.1 d.1,
    )
  ]

  HasDistinctIds-sort : (xs : List Row) → HasDistinctIds xs → HasDistinctIds (sort leq xs)
  unfolding sort
  HasDistinctIds-sort [] d = tt
  HasDistinctIds-sort (x ∷ xs) d =
      HasDistinctIds-insert x (sort leq xs) (sort-All leq (λ q. get "id" q ≢ get "id" x) xs d.0)
        (HasDistinctIds-sort xs d.1)

  AreIds-sort : (n : ℕ) (xs : List Row) → AreIds n xs → AreIds n (sort leq xs)
  AreIds-sort n xs h = (sort-All leq (HasIdBelow n) xs h.0, HasDistinctIds-sort xs h.1)

module _ (t : Table) (leq : Row → Row → Bool) (now : String) (s : Process) where
  pub rows-put_in_order :
      (u : Table)
      → rows u (put_in_order t leq now s) ≡ (if table_eq t u then sort leq (rows t s) else rows u s)
  unfolding put_in_order
  rows-put_in_order u = rw (rows-place_loaded, cached-load_data) refl

  pub next-put_in_order : (u : Table) → next u (put_in_order t leq now s) ≡ next u s
  unfolding put_in_order
  next-put_in_order u = next-place_loaded t u now s _

  put_in_order-IsWellFormed : IsWellFormed s → IsWellFormed (put_in_order t leq now s)
  put_in_order-IsWellFormed h = record {
    ids = λ u.
        rw (rows-put_in_order, next-put_in_order)
          (by_rows (table_eq t u) (next u s) (next t s) (rows u s) (sort leq (rows t s))
            (λ e. ap (λ v. next v s) (sym (table_eq→eq t u e)))
            (AreIds-sort leq (next t s) (rows t s) (h.ids t)) (h.ids u));
  }

  pub put_in_order-IsSound : IsSound s → IsSound (put_in_order t leq now s)
  unfolding put_in_order write_rows
  put_in_order-IsSound h =
      let loaded = load_data-IsSound now s h in
      record {
        ids = put_in_order-IsWellFormed h.ids;
        file = loaded.file;
        alone = record {
          tables = loaded.alone.tables;
          metadata = loaded.alone.metadata;
          empty = λ u. rw (loaded.alone.tables t) (loaded.alone.empty u);
        };
      }
