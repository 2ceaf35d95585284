-- ===== src/Store/Machine.antt =====
-- The process as a state machine: writes, reads and lists by any request, transactions that are open at
-- the same time, the flush timer, and a crash after which a new process starts over the file. A
-- transaction's function is the steps between its begin and its end.
pub mod Unsaved
pub mod Copies
pub mod Sound
pub mod Sorting
pub mod Idle
pub mod Reachable
use jtfp_cloudrun.Base.{ℕ, String, ◌≡◌, Bool, true, false, none, some, List, [], ◌∷◌, ◌++◌}
use jtfp_cloudrun.Base.Sort.{sort}
use jtfp_cloudrun.Js.Objects.{Row}
use jtfp_cloudrun.Store.Table.{Table}
use jtfp_cloudrun.Store.State.{
  Process, StoreData, cached, load_data, write_rows, copy_data, flush_now, flush_timer,
}
use jtfp_cloudrun.Store.Integrity.{Write, apply, KeepsIds}
use jtfp_cloudrun.Store.Transaction.{returns, throws, settle, clear_all, restart}

-- A list without a filter sorts the array that findAll gives, which is the table's own.
unfoldable pub put_in_order : Table → (Row → Row → Bool) → String → Process → Process
put_in_order t leq now s =
    let s1 = load_data now s in write_rows t (sort leq ((cached s1).tables t)) s1

-- The process, and the snapshots of the transactions that have begun and not ended.
pub record System : Type 0 where
  pub process : Process
  pub snapshots : List StoreData

abbrev pub with_process : System → Process → System
with_process m s = record m { process = s }

pub data Step (m : System) : System → Type 0 where
  read : (now : String) → Step m (with_process m (load_data now m.process))
  list :
      (t : Table) (leq : Row → Row → Bool) (now : String)
      → Step m (with_process m (put_in_order t leq now m.process))
  write : (w : Write) (now : String) → KeepsIds w → Step m (with_process m (apply w now m.process))
  fire :
      (now : String) → m.process.timer ≡ true → Step m (with_process m (flush_timer now m.process))
  flush : (now : String) → Step m (with_process m (flush_now now m.process))
  begin :
      (now : String)
      → Step m (record {
        process = load_data now m.process;
        snapshots = copy_data (cached (load_data now m.process)) ∷ m.snapshots;
      })
  commit :
      (now : String) (older newer : List StoreData) (d : StoreData)
      → m.snapshots ≡ newer ++ d ∷ older
      → Step m (record {
        process = (settle {A = Unit {0}} d now (returns tt) m.process).1;
        snapshots = newer ++ older;
      })
  abort :
      (now e : String) (older newer : List StoreData) (d : StoreData)
      → m.snapshots ≡ newer ++ d ∷ older
      → Step m (record {
        process = (settle {A = Unit {0}} d now (throws e) m.process).1;
        snapshots = newer ++ older;
      })
  clear : (now : String) → Step m (with_process m (clear_all now m.process))
  crash :
      (defaults : StoreData)
      → ((t : Table) → defaults.tables t ≡ [])
      → Step m (record { process = restart defaults m.process; snapshots = [] })

pub data Reach (m : System) : System → Type 0 where
  here : Reach m m
  next_step : {k n : System} → Reach m k → Step k n → Reach m n
