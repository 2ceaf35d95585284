-- ===== src/Store/Transaction/Laws.antt =====
-- What commits, rolls back, is saved, and survives a restart.
use jtfp_cloudrun.Base.{
  String, ◌≡◌, refl, Bool, true, false, Option, none, some, List, [], ◌∷◌, ◌++◌, arith, map, ap,
  ◌∙◌,
}
use jtfp_cloudrun.Js.Objects.{Row, json_copy}
use jtfp_cloudrun.Store.Table.{Table, table_eq_refl}
use jtfp_cloudrun.Store.State.{
  Process, StoreData, Meta, parsed, rows, next, contents, load_data, flush_now, flush_timer,
  state_ops, copy_data, replace_cache,
}
use jtfp_cloudrun.Store.Rows.{insert}
use jtfp_cloudrun.Store.Views.{cached-load_data, rows-flush_now, rows-insert, insert-new_row}
use jtfp_cloudrun.Store.Transaction.{Outcome, returns, throws, with_transaction, clear_all, restart}

abbrev pub is_loaded : Process → Bool
is_loaded s = elim s.cache [ none ↦ false | some d ↦ true ]

module _ {ℓ} {A : Type ℓ} (fn : Process → Outcome A × Process) (now : String) (s : Process) where
  -- A transaction whose function throws, whatever the function has written, leaves every table
  -- with the rows that it had before, each copied through JSON, and passes the error on.
  pub with_transaction-throws :
      (e : String) (t : Table)
      → (fn (load_data now s)).0 ≡ throws e
      → ((with_transaction fn now s).0 ≡ throws e)
        × (rows t (with_transaction fn now s).1 ≡ map json_copy (rows t s))
  unfolding with_transaction rows contents load_data copy_data replace_cache
  with_transaction-throws e t h =
      rw h (refl, ap (map json_copy) (unfold load_data in cached-load_data t now s))

  -- A transaction that throws also drops what was unsaved before it: if its function leaves the
  -- file alone, neither the flush timer nor a flush saves anything afterwards, whether or not the
  -- process had unsaved rows when the transaction began.
  pub with_transaction-forgets :
      (e later : String)
      → (fn (load_data now s)).0 ≡ throws e
      → (fn (load_data now s)).1.file ≡ s.file
      → ((flush_timer later (with_transaction fn now s).1).file ≡ s.file)
        × ((flush_now later (with_transaction fn now s).1).file ≡ s.file)
  unfolding with_transaction flush_timer flush_now replace_cache
  with_transaction-forgets e later h k = rw (h, k) (refl, refl)

-- A save of unsaved data, and the process that starts over the file.
module _ (d : StoreData) (t : Table) (now : String) (s : Process) where
  -- After a flush of a process with unsaved data, a restart reads every row that the process had,
  -- copied through JSON, and hands out the same identifiers next.
  pub restart-flush_now :
      is_loaded s ≡ true
      → s.dirty ≡ true
      → (rows t (restart d (flush_now now s)) ≡ map json_copy (rows t s))
        × (next t (restart d (flush_now now s)) ≡ next t s)
  unfolding state_ops restart
  restart-flush_now l h = ground arith

  -- So it is for the flush timer.
  pub restart-flush_timer :
      is_loaded s ≡ true
      → s.dirty ≡ true
      → (rows t (restart d (flush_timer now s)) ≡ map json_copy (rows t s))
        × (next t (restart d (flush_timer now s)) ≡ next t s)
  unfolding state_ops restart
  restart-flush_timer l h = ground arith

-- A transaction whose function returns, after it has written (the data is loaded and flagged as
-- unsaved), passes its value on, keeps every row that the function left, and has saved them: a
-- process that starts over the file reads each, copied through JSON, and hands out the same
-- identifiers.
pub with_transaction-returns {ℓ} :
    {A : Type ℓ} (fn : Process → Outcome A × Process) (now : String) (s : Process) (a : A)
    (d : StoreData) (t : Table)
    → (fn (load_data now s)).0 ≡ returns a
    → is_loaded (fn (load_data now s)).1 ≡ true
    → (fn (load_data now s)).1.dirty ≡ true
    → ((with_transaction fn now s).0 ≡ returns a)
      × (rows t (with_transaction fn now s).1 ≡ rows t (fn (load_data now s)).1)
      × (rows t (restart d (with_transaction fn now s).1)
          ≡ map json_copy (rows t (fn (load_data now s)).1))
      × (next t (restart d (with_transaction fn now s).1) ≡ next t (fn (load_data now s)).1)
unfolding with_transaction
with_transaction-returns fn now s a d t h l e =
    let (saved, ids) = restart-flush_now d t now (fn (load_data now s)).1 l e in
    rw h (refl, rows-flush_now t now _, saved, ids)

pub insert-unsaved :
    (t : Table) (r : Row) (now : String) (s : Process)
    → (is_loaded (insert t r now s).1 ≡ true) × ((insert t r now s).1.dirty ≡ true)
unfolding insert state_ops
insert-unsaved t r now s = (refl, refl)

-- An inserted row survives: after an insert and a flush, a restart reads the table's old rows and
-- the new one behind them, copied through JSON.
pub insert-survives :
    (d : StoreData) (t : Table) (r : Row) (now later : String) (s : Process)
    → rows t (restart d (flush_now later (insert t r now s).1))
      ≡ map json_copy (rows t s ++ (insert t r now s).0 ∷ [])
insert-survives d t r now later s =
    let (loaded, dirty) = insert-unsaved t r now s in
    (restart-flush_now d t later (insert t r now s).1 loaded dirty).0
    ∙ ap (map json_copy) (rows-insert t t now s r ∙ rw (table_eq_refl, insert-new_row))

-- Where the file lacks a table, `loadData` hands out DEFAULT_DATA's own array for it: a row that is
-- inserted there stays after `clearAll`, which is to empty every table.
pub clear_all-keeps_shared :
    (t : Table) (r : Row) (now later : String) (s : Process) (m : Meta)
    (saved : Table → Option (List Row))
    → s.cache ≡ none
    → s.file ≡ parsed (some m) saved
    → saved t ≡ none
    → rows t (clear_all later (insert t r now s).1)
      ≡ map json_copy (s.default_data.tables t ++ (insert t r now s).0 ∷ [])
unfolding clear_all insert state_ops
clear_all-keeps_shared t r now later s m saved h k l = rw (h, k, l, table_eq_refl) refl
