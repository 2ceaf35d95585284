-- ===== src/Store/Changes.antt =====
-- What lookups return, and what updates and removals do to every table: in `if` form, and whether
-- or not the data was loaded before.
use jtfp_cloudrun.Base.{
  String, ◌≡◌, refl, sym, Bool, true, false, not, none, some, List, [], ◌∷◌, arith, filter, find,
  length, if◌then◌else◌, Bool-cases, inl, inr, ◌∙◌,
}
use jtfp_cloudrun.Js.{Value}
use jtfp_cloudrun.Js.Objects.{Row}
use jtfp_cloudrun.Store.Table.{Table, table_eq, table_eq→eq}
use jtfp_cloudrun.Store.State.{Process, rows, next, load_data, mark_dirty}
use jtfp_cloudrun.Store.Rows.{
  find_one, find_by_id, find_all, count, update, updated_row, update_first, update_where,
  update_rows, remove, remove_first, remove_where, has, has_id,
}
use jtfp_cloudrun.Store.Views.{
  rows-load_data, next-load_data, rows-mark_dirty, next-mark_dirty, get_table-rows,
  rows-write_loaded, next-write_loaded, rows-assign_loaded, next-assign_loaded,
}

module _ (p : Row → Bool) where
  update_first-none : (f : Row → Row) (rs : List Row) → has p rs ≡ false → update_first p f rs ≡ rs
  unfolding update_first
  update_first-none f [] h = refl
  update_first-none f (r ∷ rs) h = ground (arith, update_first-none f rs)

  remove_first-none : (rs : List Row) → has p rs ≡ false → remove_first p rs ≡ rs
  unfolding remove_first
  remove_first-none [] h = refl
  remove_first-none (r ∷ rs) h = ground (arith, remove_first-none rs)

  pub update_rows-none :
      (f : Row → Row) (rs : List Row) → has p rs ≡ false → update_rows p f rs ≡ rs
  unfolding update_rows
  update_rows-none f [] h = refl
  update_rows-none f (r ∷ rs) h = ground (arith, update_rows-none f rs)

  pub has-find : (rs : List Row) → has p rs ≡ false → find p rs ≡ none
  has-find [] h = refl
  has-find (r ∷ rs) h = ground (arith, has-find rs)

  pub find-has : (rs : List Row) (r : Row) → find p rs ≡ some r → has p rs ≡ true
  find-has [] r h = absurd (cc)
  find-has (q ∷ rs) r h = ground (arith, find-has rs r)

module _ (t u : Table) (now : String) (s : Process) where
  if_unchanged :
      (rs : List Row) → rs ≡ rows t s → rows u s ≡ (if table_eq t u then rs else rows u s)
  if_unchanged rs e = elim (Bool-cases (table_eq t u)) [
    | inl same ↦ rw (same, ← table_eq→eq t u same) (sym e)
    | inr other ↦ rw other
  ]

  pub rows-update :
      (id : Value) (r : Row)
      → rows u (update t id r now s).1 ≡ (
          if table_eq t u
          then update_first (has_id id) (updated_row r now) (rows t s)
          else rows u s)
  unfolding update
  rows-update id r = elim (Bool-cases (has (has_id id) (rows t s))) [
    | inl e ↦ rw (get_table-rows, e) (rows-write_loaded t u now s _)
    | inr e ↦
        rw (get_table-rows, e)
          (rows-load_data u now s
            ∙ if_unchanged _ (update_first-none (has_id id) (updated_row r now) (rows t s) e))
  ]

  pub next-update : (id : Value) (r : Row) → next u (update t id r now s).1 ≡ next u s
  unfolding update
  next-update id r = elim (Bool-cases (has (has_id id) (rows t s))) [
    | inl e ↦ rw (get_table-rows, e) (next-write_loaded t u now s _)
    | inr e ↦ rw (get_table-rows, e) (next-load_data u now s)
  ]

  pub rows-remove :
      (id : Value)
      → rows u (remove t id now s).1
        ≡ (if table_eq t u then remove_first (has_id id) (rows t s) else rows u s)
  unfolding remove
  rows-remove id = elim (Bool-cases (has (has_id id) (rows t s))) [
    | inl e ↦ rw (get_table-rows, e) (rows-write_loaded t u now s _)
    | inr e ↦
        rw (get_table-rows, e)
          (rows-load_data u now s ∙ if_unchanged _ (remove_first-none (has_id id) (rows t s) e))
  ]

  pub next-remove : (id : Value) → next u (remove t id now s).1 ≡ next u s
  unfolding remove
  next-remove id = elim (Bool-cases (has (has_id id) (rows t s))) [
    | inl e ↦ rw (get_table-rows, e) (next-write_loaded t u now s _)
    | inr e ↦ rw (get_table-rows, e) (next-load_data u now s)
  ]

  mark_if : (b : Bool) (s' : Process) → rows u (if b then mark_dirty s' else s') ≡ rows u s'
  mark_if true s' = rows-mark_dirty t u s'
  mark_if false s' = refl

  next-mark_if : (b : Bool) (s' : Process) → next u (if b then mark_dirty s' else s') ≡ next u s'
  next-mark_if true s' = next-mark_dirty t u s'
  next-mark_if false s' = refl

  pub rows-remove_where :
      (p : Row → Bool)
      → rows u (remove_where t p now s).1
        ≡ (if table_eq t u then filter (λ r. not (p r)) (rows t s) else rows u s)
  unfolding remove_where
  rows-remove_where p = rw get_table-rows (mark_if _ _ ∙ rows-assign_loaded t u now s _)

  pub next-remove_where : (p : Row → Bool) → next u (remove_where t p now s).1 ≡ next u s
  unfolding remove_where
  next-remove_where p = rw get_table-rows (next-mark_if _ _ ∙ next-assign_loaded t u now s _)

  pub rows-update_where :
      (p : Row → Bool) (r : Row)
      → rows u (update_where t p r now s).1
        ≡ (if table_eq t u then update_rows p (updated_row r now) (rows t s) else rows u s)
  unfolding update_where
  rows-update_where p r = elim (Bool-cases (has p (rows t s))) [
    | inl e ↦ rw (get_table-rows, e) (rows-write_loaded t u now s _)
    | inr e ↦
        rw (get_table-rows, e)
          (rows-load_data u now s
            ∙ if_unchanged _ (update_rows-none p (updated_row r now) (rows t s) e))
  ]

  pub next-update_where :
      (p : Row → Bool) (r : Row) → next u (update_where t p r now s).1 ≡ next u s
  unfolding update_where
  next-update_where p r = elim (Bool-cases (has p (rows t s))) [
    | inl e ↦ rw (get_table-rows, e) (next-write_loaded t u now s _)
    | inr e ↦ rw (get_table-rows, e) (next-load_data u now s)
  ]

module _ (t : Table) (now : String) (s : Process) where
  pub update-has : (id : Value) (r : Row) → (update t id r now s).0 ≡ has (has_id id) (rows t s)
  unfolding update
  update-has id r = rw get_table-rows (ground arith)

  pub remove-has : (id : Value) → (remove t id now s).0 ≡ has (has_id id) (rows t s)
  unfolding remove
  remove-has id = rw get_table-rows (ground arith)

  pub find_one-rows : (p : Row → Bool) → find_one t p now s ≡ (find p (rows t s), load_data now s)
  unfolding find_one
  find_one-rows p = rw get_table-rows

  pub find_by_id-rows :
      (id : Value) → find_by_id t id now s ≡ (find (has_id id) (rows t s), load_data now s)
  unfolding find_by_id
  find_by_id-rows id = rw get_table-rows

  pub find_all-rows : (p : Row → Bool) → find_all t p now s ≡ (filter p (rows t s), load_data now s)
  unfolding find_all
  find_all-rows p = rw get_table-rows

  pub count-rows :
      (p : Row → Bool) → count t p now s ≡ (length (filter p (rows t s)), load_data now s)
  unfolding count
  count-rows p = rw get_table-rows
