-- ===== src/Tests/MachineRuns.antt =====
-- The file store as a state machine, on a process that starts without a file.
use mathlib.Core.List.{Perm}
use jtfp_cloudrun.Base.{◌⊎◌, String, ◌≡◌, refl, true, List, [], ◌∷◌, map}
use jtfp_cloudrun.Js.{str, int}
use jtfp_cloudrun.Js.Objects.{Row, json_copy}
use jtfp_cloudrun.Store.Table.{orders, product_skus, reviews}
use jtfp_cloudrun.Store.State.{StoreData, cached, load_data, copy_data, flush_timer, rows, next}
use jtfp_cloudrun.Store.Integrity.{Write, apply, insert_row, update_row, remove_row, run}
use jtfp_cloudrun.Store.Refinement.{view, spec_run, run-spec_run}
use jtfp_cloudrun.Store.Transaction.{returns, throws, settle, restart}
use jtfp_cloudrun.Store.Machine.{
  System, with_process, Reach, here, next_step, write, begin, commit, abort, crash,
}
use jtfp_cloudrun.Store.Machine.Sound.{IsSound, restart-IsSound}
use jtfp_cloudrun.Store.Machine.Reachable.{Reach-IsSound}
use jtfp_cloudrun.Store.Machine.Unsaved.{Keeps, stays, keeps_on, Keeps-saved}
use jtfp_cloudrun.Tests.Data.{shop, shop-IsWellFormed, fresh, default_data}

abbrev day : String
day = "2024-05-01"

abbrev review : Row
review = ("rating", int 5) ∷ []

abbrev started : System
started = record { process = fresh; snapshots = [] }

-- A review is written, a transaction begins and writes another, and goes back; the process crashes.
abbrev written : System
written = with_process started (apply (insert_row reviews review) day fresh)

abbrev snapshot : StoreData
snapshot = copy_data (cached (load_data day written.process))

abbrev opened : System
opened = record { process = load_data day written.process; snapshots = snapshot ∷ [] }

abbrev rewritten : System
rewritten = with_process opened (apply (insert_row reviews review) day opened.process)

abbrev aborted : System
aborted = record {
  process = (settle {A = Unit {0}} snapshot day (throws "no stock") rewritten.process).1;
  snapshots = [];
}

abbrev crashed : System
crashed = record { process = restart default_data aborted.process; snapshots = [] }

written_reached : Reach started written
written_reached = next_step here (write (insert_row reviews review) day tt)

aborted_reached : Reach started aborted
aborted_reached =
    next_step
      (next_step (next_step written_reached (begin day)) (write (insert_row reviews review) day tt))
      (abort day "no stock" [] [] snapshot refl)

fresh-IsSound : IsSound fresh
unfolding restart
fresh-IsSound = restart-IsSound default_data fresh (λ t. refl) tt

Reach-IsSound_example : IsSound crashed.process
Reach-IsSound_example =
    Reach-IsSound started crashed (next_step aborted_reached (crash default_data (λ t. refl)))
      fresh-IsSound refl

-- After the first review, a transaction begins, writes another, and commits.
abbrev committed : System
committed = record {
  process = (settle {A = Unit {0}} snapshot day (returns tt) rewritten.process).1;
  snapshots = [];
}

committed_kept : Keeps written committed
committed_kept =
    keeps_on
      (keeps_on (keeps_on stays (begin day) refl) (write (insert_row reviews review) day tt) refl)
      (commit day [] [] snapshot refl) refl

Keeps-saved_example :
    ((committed.process.timer ≡ true)
      ⊎ Perm
          (rows reviews (restart default_data committed.process))
          (map json_copy (rows reviews committed.process)))
    × Perm
        (rows reviews (restart default_data (flush_timer day committed.process)))
        (map json_copy (rows reviews committed.process))
    × (next reviews (restart default_data (flush_timer day committed.process))
        ≡ next reviews committed.process)
unfolding apply
Keeps-saved_example =
    Keeps-saved started committed reviews review day day default_data reviews committed_kept

abbrev writes : List (String × Write)
writes =
    (day, insert_row reviews review)
    ∷ (day, update_row orders (int 1) (("status", str "PAID") ∷ []))
    ∷ (day, remove_row product_skus (int 1))
    ∷ []

run-spec_run_example : view (run writes shop) ≡ spec_run writes (view shop)
run-spec_run_example = run-spec_run writes shop (tt, ((refl, tt), (tt, tt))) shop-IsWellFormed
