-- ===== src/Store/Machine/Reachable.antt =====
-- Every process that the state machine reaches.
use jtfp_cloudrun.Base.{String, ◌≡◌, List, [], ◌∷◌, ◌++◌, All, All-append, All-append_inv}
use jtfp_cloudrun.Store.State.{Process, StoreData, cached, load_data}
use jtfp_cloudrun.Store.Integrity.{IsWellFormed}
use jtfp_cloudrun.Store.Views.{cached-load_data, ids-load_data}
use jtfp_cloudrun.Store.Machine.Copies.{IsData, copy_data-IsData}
use jtfp_cloudrun.Store.Machine.Sound.{
  IsSound, load_data-IsSound, apply-IsSound, flush_now-IsSound, flush_timer-eq, rollback-IsSound,
  clear_all-IsSound, restart-IsSound,
}
use jtfp_cloudrun.Store.Machine.Sorting.{put_in_order-IsSound}
use jtfp_cloudrun.Store.Machine.{
  System, Step, Reach, read, list, write, fire, flush, begin, commit, abort, clear, crash, here,
  next_step,
}

-- The process is sound, and so is every snapshot that a transaction may go back to.
pub record IsSoundSystem (m : System) : Type 0 where
  pub process : IsSound m.process
  pub snapshots : All IsData m.snapshots

loaded-IsData : (now : String) (s : Process) → IsWellFormed s → IsData (cached (load_data now s))
loaded-IsData now s h t = rw (cached-load_data, ids-load_data) (h.ids t)

without :
    (ds newer older : List StoreData) (d : StoreData)
    → ds ≡ newer ++ d ∷ older
    → All IsData ds
    → IsData d × All IsData (newer ++ older)
without ds newer older d e h =
    let (new, rest) = All-append_inv IsData newer (d ∷ older) (rw e at h) in
    (rest.0, All-append IsData newer older new rest.1)

Step-IsSoundSystem : (m n : System) → Step m n → IsSoundSystem m → IsSoundSystem n
Step-IsSoundSystem m n (read now) h = record {
  process = load_data-IsSound now m.process h.process;
  snapshots = h.snapshots;
}
Step-IsSoundSystem m n (list t leq now) h = record {
  process = put_in_order-IsSound t leq now m.process h.process;
  snapshots = h.snapshots;
}
Step-IsSoundSystem m n (write w now k) h = record {
  process = apply-IsSound w now m.process k h.process;
  snapshots = h.snapshots;
}
Step-IsSoundSystem m n (fire now e) h = record {
  process = rw (flush_timer-eq now m.process) (flush_now-IsSound now m.process h.process);
  snapshots = h.snapshots;
}
Step-IsSoundSystem m n (flush now) h = record {
  process = flush_now-IsSound now m.process h.process;
  snapshots = h.snapshots;
}
Step-IsSoundSystem m n (begin now) h = record {
  process = load_data-IsSound now m.process h.process;
  snapshots = (
    copy_data-IsData (cached (load_data now m.process)) (loaded-IsData now m.process h.process.ids),
    h.snapshots,
  );
}
Step-IsSoundSystem m n (commit now older newer d e) h = record {
  process = flush_now-IsSound now m.process h.process;
  snapshots = (without m.snapshots newer older d e h.snapshots).1;
}
Step-IsSoundSystem m n (abort now x older newer d e) h =
    let (sound, rest) = without m.snapshots newer older d e h.snapshots in
    record { process = rollback-IsSound d now x m.process sound h.process; snapshots = rest }
Step-IsSoundSystem m n (clear now) h = record {
  process = clear_all-IsSound now m.process h.process;
  snapshots = h.snapshots;
}
Step-IsSoundSystem m n (crash defaults e) h = record {
  process = restart-IsSound defaults m.process e h.process.file;
  snapshots = tt;
}

-- From a process whose identifiers are in order, over a file that has every table (or none, or one
-- that does not parse), with no rows in DEFAULT_DATA, nothing of it in the cache, and no transaction
-- open: whatever requests of which no update writes an identifier, lists that sort a table,
-- interleaved transactions, timers, clearings and crashes happen, the process is again such a one.
-- In every table the identifiers are positive, below the next one to be handed out, and used once;
-- and so they are in the file, if the program has saved it.
pub Reach-IsSound :
    (m n : System) → Reach m n → IsSound m.process → m.snapshots ≡ [] → IsSound n.process
Reach-IsSound m n r h e = (go n r).process
  where
    go : (k : System) → Reach m k → IsSoundSystem k
    go k here = record { process = h; snapshots = rw e tt }
    go j (next_step {k} r st) = Step-IsSoundSystem k j st (go k r)
