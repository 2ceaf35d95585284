-- ===== src/Store/Machine/Sound.antt =====
-- A process whose identifiers are in order, over a file in which they are, and what keeps it so.
use jtfp_cloudrun.Base.{
  String, ◌≡◌, refl, Bool, true, false, Option, none, some, List, [], arith, Option-cases, inl, inr,
  if◌then◌else◌,
}
use jtfp_cloudrun.Js.Objects.{Row}
use jtfp_cloudrun.Store.Table.{Table}
use jtfp_cloudrun.Store.State.{
  Process, StoreData, Meta, File, missing, corrupt, parsed, rows, next, cached, load_data,
  load_file, copy_data, flush_now, flush_timer, save_data_sync, state_ops, id_or_one, replace_cache,
  is_none, next_id, get_table, write_rows, assign_rows, write_meta, mark_dirty, contents,
}
use jtfp_cloudrun.Store.Integrity.{
  IsWellFormed, AreIds, load_data-IsWellFormed, Write, apply, insert_row, update_row,
  update_matching, remove_row, remove_matching, KeepsIds, apply-IsWellFormed,
}
use jtfp_cloudrun.Store.Machine.Copies.{IsData, AreIds-json_copy}
use jtfp_cloudrun.Store.Views.{rows-save_data_sync}
use jtfp_cloudrun.Store.Transaction.{throws, settle, clear_all, restart}
use jtfp_cloudrun.Store.Rows.{row_ops}

-- A file that this program has saved, or that was never there, or does not parse.
abbrev pub IsSaved : File → Type 0
IsSaved missing = Unit
IsSaved corrupt = Unit
IsSaved (parsed m saved) =
    (known : Meta) × (m ≡ some known)
    × ((t : Table)
        → (rs : List Row) × (saved t ≡ some rs) × AreIds (id_or_one (known.next_ids t)) rs)

-- DEFAULT_DATA has no rows, and the cache shares none of its objects.
pub record IsAlone (s : Process) : Type 0 where
  pub tables : (t : Table) → s.shared t ≡ false
  pub metadata : s.shared_meta ≡ false
  pub empty : (t : Table) → s.default_data.tables t ≡ []

pub record IsSound (s : Process) : Type 0 where
  pub ids : IsWellFormed s
  pub file : IsSaved s.file
  pub alone : IsAlone s

save_data_sync-file :
    (now : String) (s : Process) (d : StoreData)
    → s.cache ≡ some d
    → IsData d
    → IsSaved (save_data_sync now s).file
unfolding save_data_sync state_ops
save_data_sync-file now s d e h =
    rw e (_, refl, λ t. (_, refl, AreIds-json_copy _ (d.tables t) (h t)))

save_data_sync-IsAlone : (now : String) (s : Process) → IsAlone s → IsAlone (save_data_sync now s)
unfolding save_data_sync state_ops
save_data_sync-IsAlone now s h = record {
  tables = λ t. ground (arith, h.tables t);
  metadata = ground (arith, h.metadata);
  empty = λ t. ground (arith, h.empty t, h.metadata);
}

empty-IsData : (d : StoreData) → ((t : Table) → d.tables t ≡ []) → IsData (copy_data d)
unfolding copy_data
empty-IsData d h t = rw h (tt, tt)

is_missing_or_not : (m : Option Meta) (known : Meta) → m ≡ some known → is_none m ≡ false
is_missing_or_not m known e = rw e

load_file-IsAlone :
    (now : String) (f : File) (s : Process) → IsSaved f → IsAlone s → IsAlone (load_file now f s)
unfolding state_ops
load_file-IsAlone now missing s k h = record {
  tables = λ t. refl;
  metadata = refl;
  empty = λ t. ground (arith, h.empty t);
}
load_file-IsAlone now corrupt s k h = record {
  tables = λ t. refl;
  metadata = refl;
  empty = h.empty;
}
load_file-IsAlone now (parsed m saved) s (known, e, k) h = record {
  tables = λ t. rw (k t).1;
  metadata = rw e;
  empty = h.empty;
}

load_file-IsSaved :
    (now : String) (f : File) (s : Process)
    → IsSaved f
    → IsSaved s.file
    → IsAlone s
    → IsSaved (load_file now f s).file
unfolding load_file replace_cache
load_file-IsSaved now missing s k j h =
    save_data_sync-file now (replace_cache (copy_data s.default_data) s) (copy_data s.default_data)
      refl (empty-IsData s.default_data h.empty)
load_file-IsSaved now corrupt s k j h = j
load_file-IsSaved now (parsed m saved) s k j h = j

load_data-kept :
    (now : String) (s : Process)
    → IsSaved s.file
    → IsAlone s
    → IsSaved (load_data now s).file × IsAlone (load_data now s)
unfolding load_data
load_data-kept now s f h = go s.cache
  where
    go :
        (o : Option StoreData)
        → IsSaved (elim o as (λ x. Process) [ some d ↦ s | none ↦ load_file now s.file s ]).file
          × IsAlone (elim o as (λ x. Process) [ some d ↦ s | none ↦ load_file now s.file s ])
    go none = (load_file-IsSaved now s.file s f f h, load_file-IsAlone now s.file s f h)
    go (some d) = (f, h)

pub load_data-IsSound : (now : String) (s : Process) → IsSound s → IsSound (load_data now s)
load_data-IsSound now s h =
    let (file, alone) = load_data-kept now s h.file h.alone in
    record { ids = load_data-IsWellFormed now s h.ids; file = file; alone = alone }

pub cached-IsData : (s : Process) (d : StoreData) → s.cache ≡ some d → IsWellFormed s → IsData d
unfolding state_ops
cached-IsData s d e h t = rw e at h.ids t

next-save_data_sync :
    (t : Table) (now : String) (s : Process) → next t (save_data_sync now s) ≡ next t s
unfolding state_ops
next-save_data_sync t now s = ground arith

unsaved_file : (now : String) (s : Process) → s.cache ≡ none → (save_data_sync now s).file ≡ s.file
unfolding save_data_sync
unsaved_file now s e = ground arith

save_data_sync-IsSaved :
    (now : String) (s : Process) → IsSound s → IsSaved (save_data_sync now s).file
save_data_sync-IsSaved now s h = elim (Option-cases s.cache) [
  | inl e ↦ rw (unsaved_file now s e) h.file
  | inr (d, e) ↦ save_data_sync-file now s d e (cached-IsData s d e h.ids)
]

save_data_sync-IsSound : (now : String) (s : Process) → IsSound s → IsSound (save_data_sync now s)
save_data_sync-IsSound now s h = record {
  ids = record { ids = λ t. rw (rows-save_data_sync, next-save_data_sync) (h.ids.ids t) };
  file = save_data_sync-IsSaved now s h;
  alone = save_data_sync-IsAlone now s h.alone;
}

rows-set_timer :
    (t : Table) (b : Bool) (s : Process)
    → (rows t (record s { timer = b }) ≡ rows t s) × (next t (record s { timer = b }) ≡ next t s)
unfolding state_ops
rows-set_timer t b s = ground arith

set_timer-IsSound : (b : Bool) (s : Process) → IsSound s → IsSound (record s { timer = b })
set_timer-IsSound b s h = record {
  ids = record { ids = λ t. rw ((rows-set_timer t b s).0, (rows-set_timer t b s).1) (h.ids.ids t) };
  file = h.file;
  alone = record { tables = h.alone.tables; metadata = h.alone.metadata; empty = h.alone.empty };
}

pub flush_now-IsSound : (now : String) (s : Process) → IsSound s → IsSound (flush_now now s)
unfolding flush_now
flush_now-IsSound now s h = go s.dirty
  where
    go :
        (b : Bool)
        → IsSound (
            if b
            then save_data_sync now (record s { timer = false })
            else record s { timer = false })
    go true = save_data_sync-IsSound now (record s { timer = false }) (set_timer-IsSound false s h)
    go false = set_timer-IsSound false s h

pub flush_timer-eq : (now : String) (s : Process) → flush_timer now s ≡ flush_now now s
unfolding flush_timer flush_now
flush_timer-eq now s = refl

apply-file :
    (w : Write) (now : String) (s : Process) → (apply w now s).file ≡ (load_data now s).file
unfolding apply row_ops next_id get_table write_rows assign_rows write_meta mark_dirty
apply-file (insert_row t r) now s = ground arith
apply-file (update_row t id r) now s = ground arith
apply-file (update_matching t p r) now s = ground arith
apply-file (remove_row t id) now s = ground arith
apply-file (remove_matching t p) now s = ground arith

apply-IsAlone :
    (w : Write) (now : String) (s : Process) → IsAlone (load_data now s) → IsAlone (apply w now s)
unfolding apply row_ops next_id get_table write_rows assign_rows write_meta mark_dirty
apply-IsAlone (insert_row t r) now s h = record {
  tables = λ u. ground (arith, h.tables u, h.tables t);
  metadata = ground (arith, h.metadata);
  empty = λ u. ground (arith, h.empty u, h.tables t, h.metadata);
}
apply-IsAlone (update_row t id r) now s h = record {
  tables = λ u. ground (arith, h.tables u, h.tables t);
  metadata = ground (arith, h.metadata);
  empty = λ u. ground (arith, h.empty u, h.tables t, h.metadata);
}
apply-IsAlone (update_matching t p r) now s h = record {
  tables = λ u. ground (arith, h.tables u, h.tables t);
  metadata = ground (arith, h.metadata);
  empty = λ u. ground (arith, h.empty u, h.tables t, h.metadata);
}
apply-IsAlone (remove_row t id) now s h = record {
  tables = λ u. ground (arith, h.tables u, h.tables t);
  metadata = ground (arith, h.metadata);
  empty = λ u. ground (arith, h.empty u, h.tables t, h.metadata);
}
apply-IsAlone (remove_matching t p) now s h = record {
  tables = λ u. ground (arith, h.tables u, h.tables t);
  metadata = ground (arith, h.metadata);
  empty = λ u. ground (arith, h.empty u, h.tables t, h.metadata);
}

pub apply-IsSound :
    (w : Write) (now : String) (s : Process) → KeepsIds w → IsSound s → IsSound (apply w now s)
apply-IsSound w now s k h =
    let (file, alone) = load_data-kept now s h.file h.alone in
    record {
      ids = apply-IsWellFormed w now s k h.ids;
      file = rw (apply-file w now s) file;
      alone = apply-IsAlone w now s alone;
    }

-- A rollback to a sound snapshot.
pub rollback-IsSound :
    (d : StoreData) (now e : String) (s : Process)
    → IsData d
    → IsSound s
    → IsSound (settle {A = Unit {0}} d now (throws e) s).1
unfolding state_ops
rollback-IsSound d now e s k h = record {
  ids = record { ids = k };
  file = h.file;
  alone = record { tables = λ t. refl; metadata = refl; empty = h.alone.empty };
}

replace_cache-IsSound :
    (d : StoreData) (s : Process) → IsData d → IsSound s → IsSound (replace_cache d s)
unfolding state_ops
replace_cache-IsSound d s k h = record {
  ids = record { ids = k };
  file = h.file;
  alone = record { tables = λ t. refl; metadata = refl; empty = h.alone.empty };
}

pub clear_all-IsSound : (now : String) (s : Process) → IsSound s → IsSound (clear_all now s)
unfolding clear_all
clear_all-IsSound now s h =
    save_data_sync-IsSound now (replace_cache (copy_data s.default_data) s) (
      replace_cache-IsSound (copy_data s.default_data) s (empty-IsData s.default_data h.alone.empty)
        h)

load_file-ids :
    (f : File) (s : Process)
    → IsSaved f
    → ((t : Table) → s.default_data.tables t ≡ [])
    → (t : Table)
    → AreIds
        (id_or_one ((cached (load_file "" f s)).meta.next_ids t))
        ((cached (load_file "" f s)).tables t)
unfolding state_ops
load_file-ids missing s k h t = rw h (tt, tt)
load_file-ids corrupt s k h t = rw h (tt, tt)
load_file-ids (parsed m saved) s (known, e, k) h t = rw (e, (k t).1) (k t).2

pub restart-IsSound :
    (d : StoreData) (s : Process)
    → ((t : Table) → d.tables t ≡ [])
    → IsSaved s.file
    → IsSound (restart d s)
unfolding restart
restart-IsSound d s h f = record {
  ids = record {
    ids = unfold rows next contents load_data in load_file-ids s.file (restart d s) f h;
  };
  file = f;
  alone = record { tables = λ t. refl; metadata = refl; empty = h };
}
