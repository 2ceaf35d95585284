-- ===== src/Store/State.antt =====
-- The process's state and the data file: loading, saving, the flush timer and the identifiers.
-- A clock reading is an argument `now`, the text that `new Date().toISOString()` gives. The file
-- operations succeed. The array that a table holds may be the one of DEFAULT_DATA (loadData hands
-- it out for a table that the file lacks): `shared` says of which tables, and a write in place
-- then reaches both.
use jtfp_cloudrun.Base.{
  ℕ, ◌+◌, String, Bool, true, false, Option, none, some, List, map, if◌then◌else◌, ◌==◌,
}
use jtfp_cloudrun.Js.Objects.{Row, json_copy}
use jtfp_cloudrun.Store.Table.{Table, table_eq}

pub record Meta : Type 0 where
  pub next_ids : Table → Option ℕ
  pub created_at : String
  pub updated_at : String

pub record StoreData : Type 0 where
  pub meta : Meta
  pub tables : Table → List Row

-- The data file. A text that parses may lack keys.
pub data File : Type 0 where
  missing : File
  corrupt : File
  parsed : Option Meta → (Table → Option (List Row)) → File

-- `_cache`, `_dirty`, whether `_flushTimer` is pending, the file, and the object DEFAULT_DATA.
pub record Process : Type 0 where
  pub cache : Option StoreData
  pub dirty : Bool
  pub timer : Bool
  pub file : File
  pub default_data : StoreData
  pub shared : Table → Bool
  pub shared_meta : Bool

abbrev pub update_at {ℓ} : {A : Type ℓ} → Table → A → (Table → A) → Table → A
update_at t a f u = if table_eq t u then a else f u

abbrev pub get_or {ℓ} : {A : Type ℓ} → Option A → A → A
get_or none d = d
get_or (some a) d = a

abbrev pub is_none {ℓ} : {A : Type ℓ} → Option A → Bool
is_none none = true
is_none (some a) = false

-- JSON.parse(JSON.stringify(data))
unfoldable pub copy_data : StoreData → StoreData
copy_data d = record d { tables = λ t. map json_copy (d.tables t) }

-- The object behind `_cache!`, once it is loaded.
abbrev pub cached : Process → StoreData
cached s = get_or s.cache s.default_data

-- A write of the table's array in place, and the assignment of a new array.
unfoldable pub write_rows : Table → List Row → Process → Process
write_rows t rows s = record s {
  cache = some (record (cached s) { tables = update_at t rows (cached s).tables });
  default_data =
      if s.shared t
      then record s.default_data { tables = update_at t rows s.default_data.tables }
      else s.default_data;
}

unfoldable pub assign_rows : Table → List Row → Process → Process
assign_rows t rows s = record s {
  cache = some (record (cached s) { tables = update_at t rows (cached s).tables });
  shared = update_at t false s.shared;
}

unfoldable pub write_meta : Meta → Process → Process
write_meta m s = record s {
  cache = some (record (cached s) { meta = m });
  default_data = if s.shared_meta then record s.default_data { meta = m } else s.default_data;
}

-- The cache becomes a fresh object, which shares nothing.
unfoldable pub replace_cache : StoreData → Process → Process
replace_cache d s = record s { cache = some d; shared = λ t. false; shared_meta = false }

-- saveDataSync
unfoldable pub save_data_sync : String → Process → Process
save_data_sync now s = elim s.cache [
  | none ↦ s
  | some d ↦
      let s' = write_meta (record d.meta { updated_at = now }) s in
      record s' {
        file = parsed (some (cached s').meta) (λ t. some (map json_copy ((cached s').tables t)));
        dirty = false;
      }
]

-- The object that JSON.parse gave, with DEFAULT_DATA's own objects for the keys that it lacks.
abbrev pub merged : Option Meta → (Table → Option (List Row)) → StoreData → StoreData
merged m rows d = record { meta = get_or m d.meta; tables = λ t. get_or (rows t) (d.tables t) }

unfoldable pub load_file : String → File → Process → Process
load_file now missing s = save_data_sync now (replace_cache (copy_data s.default_data) s)
load_file now corrupt s = replace_cache (copy_data s.default_data) s
load_file now (parsed m rows) s = record s {
  cache = some (merged m rows s.default_data);
  shared = λ t. is_none (rows t);
  shared_meta = is_none m;
}

-- loadData
unfoldable pub load_data : String → Process → Process
load_data now s = elim s.cache [ some d ↦ s | none ↦ load_file now s.file s ]

-- markDirty: a pending timer is replaced by a new one.
unfoldable pub mark_dirty : Process → Process
mark_dirty s = record s { dirty = true; timer = true }

-- The callback of the timer.
unfoldable pub flush_timer : String → Process → Process
flush_timer now s =
    let s' = record s { timer = false } in if s.dirty then save_data_sync now s' else s'

-- flushNow
unfoldable pub flush_now : String → Process → Process
flush_now now s =
    let s' = record s { timer = false } in if s.dirty then save_data_sync now s' else s'

-- `data._meta.nextIds[table] || 1`
abbrev pub id_or_one : Option ℕ → ℕ
id_or_one none = 1
id_or_one (some n) = if n == 0 then 1 else n

-- nextId
unfoldable pub next_id : Table → String → Process → ℕ × Process
next_id t now s =
    let s1 = load_data now s in
    let m = (cached s1).meta in
    let current = id_or_one (m.next_ids t) in
    let m' = record m { next_ids = update_at t (some (current + 1)) m.next_ids } in
    (current, mark_dirty (write_meta m' s1))

-- getTable, with the process that has loaded its data
unfoldable pub get_table : Table → String → Process → List Row × Process
get_table t now s = let s1 = load_data now s in ((cached s1).tables t, s1)

-- setTable
unfoldable pub set_table : Table → List Row → String → Process → Process
set_table t rows now s = mark_dirty (assign_rows t rows (load_data now s))

-- What the process would read: its cache, or else what a load would make it.
unfoldable pub contents : Process → StoreData
contents s = cached (load_data "" s)

-- The rows of a table, and the identifier that it hands out next.
unfoldable pub rows : Table → Process → List Row
rows t s = (contents s).tables t

unfoldable pub next : Table → Process → ℕ
next t s = id_or_one ((contents s).meta.next_ids t)

-- Names the operations above, for a proof or a test that runs them.
unfoldable pub state_ops : Unit {0}
unfolding contents load_data load_file replace_cache save_data_sync write_meta copy_data mark_dirty
    write_rows assign_rows next_id get_table set_table flush_now flush_timer rows next
state_ops = tt
