-- ===== src/Store/Views.antt =====
-- What each operation does to the rows of every table and to the identifiers, whether or not the
-- data was loaded before: the lemmas behind which the state stays shut.
use jtfp_cloudrun.Base.{suc, String, ◌≡◌, refl, List, [], ◌∷◌, ◌++◌, arith, if◌then◌else◌}
use jtfp_cloudrun.Js.Objects.{Row}
use jtfp_cloudrun.Store.Table.{Table, table_eq}
use jtfp_cloudrun.Store.State.{
  Process, load_data, rows, next, cached, write_rows, assign_rows, mark_dirty, next_id,
  save_data_sync, flush_now, id_or_one, get_table, write_meta, state_ops,
}
use jtfp_cloudrun.Store.Rows.{insert, new_row}

module _ (u : Table) (now : String) (s : Process) where
  pub rows-load_data : rows u (load_data now s) ≡ rows u s
  unfolding state_ops
  rows-load_data = ground arith

  pub cached-load_data : (cached (load_data now s)).tables u ≡ rows u s
  unfolding state_ops
  cached-load_data = ground arith

  pub next-load_data : next u (load_data now s) ≡ next u s
  unfolding state_ops
  next-load_data = ground arith

  pub ids-load_data : id_or_one ((cached (load_data now s)).meta.next_ids u) ≡ next u s
  unfolding state_ops
  ids-load_data = ground arith

  pub rows-save_data_sync : rows u (save_data_sync now s) ≡ rows u s
  unfolding state_ops
  rows-save_data_sync = ground arith

  pub rows-flush_now : rows u (flush_now now s) ≡ rows u s
  unfolding state_ops
  rows-flush_now = ground arith

  pub next-flush_now : next u (flush_now now s) ≡ next u s
  unfolding state_ops
  next-flush_now = ground arith

module _ (t u : Table) (s : Process) where
  rows-write :
      (rs : List Row)
      → rows u (mark_dirty (write_rows t rs s)) ≡ (if table_eq t u then rs else (cached s).tables u)
  unfolding state_ops
  rows-write rs = refl

  next-write :
      (rs : List Row)
      → next u (mark_dirty (write_rows t rs s)) ≡ id_or_one ((cached s).meta.next_ids u)
  unfolding state_ops
  next-write rs = refl

  rows-assign :
      (rs : List Row)
      → rows u (assign_rows t rs s) ≡ (if table_eq t u then rs else (cached s).tables u)
  unfolding state_ops
  rows-assign rs = refl

  next-assign :
      (rs : List Row) → next u (assign_rows t rs s) ≡ id_or_one ((cached s).meta.next_ids u)
  unfolding state_ops
  next-assign rs = refl

  rows-place :
      (rs : List Row)
      → rows u (write_rows t rs s) ≡ (if table_eq t u then rs else (cached s).tables u)
  unfolding state_ops
  rows-place rs = refl

  next-place : (rs : List Row) → next u (write_rows t rs s) ≡ id_or_one ((cached s).meta.next_ids u)
  unfolding state_ops
  next-place rs = refl

  pub rows-mark_dirty : rows u (mark_dirty s) ≡ rows u s
  unfolding state_ops
  rows-mark_dirty = ground arith

  pub next-mark_dirty : next u (mark_dirty s) ≡ next u s
  unfolding state_ops
  next-mark_dirty = ground arith

module _ (t : Table) (now : String) (s : Process) where
  pub next_id-eq-next : (next_id t now s).0 ≡ next t s
  unfolding next_id
  next_id-eq-next = ids-load_data t now s

  pub insert-new_row : (r : Row) → (insert t r now s).0 ≡ new_row r (next t s) now
  unfolding insert
  insert-new_row r = rw next_id-eq-next

  pub get_table-rows : get_table t now s ≡ (rows t s, load_data now s)
  unfolding get_table
  get_table-rows = rw cached-load_data

module _ (t u : Table) (now : String) (s : Process) where
  cached-next_id : (cached (next_id t now s).1).tables u ≡ rows u s
  unfolding next_id write_meta mark_dirty
  cached-next_id = cached-load_data u now s

  ids-next_id :
      id_or_one ((cached (next_id t now s).1).meta.next_ids u)
      ≡ (if table_eq t u then suc (next t s) else next u s)
  unfolding next_id write_meta mark_dirty
  ids-next_id = ground (arith, ids-load_data t now s, ids-load_data u now s)

module _ (t u : Table) (now : String) (s : Process) where
  pub rows-get_table : rows u (get_table t now s).1 ≡ rows u s
  unfolding get_table
  rows-get_table = rows-load_data u now s

  pub rows-insert :
      (r : Row)
      → rows u (insert t r now s).1
        ≡ (if table_eq t u then rows t s ++ new_row r (next t s) now ∷ [] else rows u s)
  unfolding insert
  rows-insert r =
      rw (rows-write, cached-next_id t t now s, cached-next_id t u now s, next_id-eq-next t now s)

  pub next-insert :
      (r : Row) → next u (insert t r now s).1 ≡ (if table_eq t u then suc (next t s) else next u s)
  unfolding insert
  next-insert r = rw (next-write, ids-next_id t u now s)

  pub rows-write_loaded :
      (rs : List Row)
      → rows u (mark_dirty (write_rows t rs (load_data now s)))
        ≡ (if table_eq t u then rs else rows u s)
  rows-write_loaded rs = rw (rows-write, cached-load_data)

  pub next-write_loaded :
      (rs : List Row) → next u (mark_dirty (write_rows t rs (load_data now s))) ≡ next u s
  next-write_loaded rs = rw (next-write, ids-load_data)

  pub rows-assign_loaded :
      (rs : List Row)
      → rows u (assign_rows t rs (load_data now s)) ≡ (if table_eq t u then rs else rows u s)
  rows-assign_loaded rs = rw (rows-assign, cached-load_data)

  pub next-assign_loaded : (rs : List Row) → next u (assign_rows t rs (load_data now s)) ≡ next u s
  next-assign_loaded rs = rw (next-assign, ids-load_data)

  pub rows-place_loaded :
      (rs : List Row)
      → rows u (write_rows t rs (load_data now s)) ≡ (if table_eq t u then rs else rows u s)
  rows-place_loaded rs = rw (rows-place, cached-load_data)

  pub next-place_loaded : (rs : List Row) → next u (write_rows t rs (load_data now s)) ≡ next u s
  next-place_loaded rs = rw (next-place, ids-load_data)
