-- ===== src/Store/Transaction.antt =====
-- withTransaction, clearAll, initDefaultData, and a restart of the process. The function that a
-- transaction runs is one step here; Store/Machine lets other requests run while it awaits.
pub mod Laws
use jtfp_cloudrun.Base.{
  ℕ, ◌==◌, String, Bool, true, false, Option, none, some, List, [], ◌∷◌, length, if◌then◌else◌,
}
use jtfp_cloudrun.Base.Int.{pos}
use jtfp_cloudrun.Js.{Value, num, str}
use jtfp_cloudrun.Js.Objects.{Row}
use jtfp_cloudrun.Store.Table.{Table, categories, admins}
use jtfp_cloudrun.Store.State.{
  Process, StoreData, cached, load_data, copy_data, replace_cache, save_data_sync, flush_now,
}
use jtfp_cloudrun.Store.Rows.{insert}

-- How an asynchronous function ends.
pub data Outcome {ℓ} (A : Type ℓ) : Type ℓ where
  returns : A → Outcome A
  throws : String → Outcome A

module _ {ℓ} {A : Type ℓ} where
  abbrev pub settle : StoreData → String → Outcome A → Process → Outcome A × Process
  settle snapshot now (returns a) s = (returns a, flush_now now s)
  settle snapshot now (throws e) s = (throws e, record (replace_cache snapshot s) { dirty = false })

  -- withTransaction
  unfoldable pub with_transaction :
      (Process → Outcome A × Process) → String → Process → Outcome A × Process
  with_transaction fn now s =
      let s0 = load_data now s in
      let snapshot = copy_data (cached s0) in settle snapshot now (fn s0).0 (fn s0).1

-- clearAll
unfoldable pub clear_all : String → Process → Process
clear_all now s = save_data_sync now (replace_cache (copy_data s.default_data) s)

abbrev default_category : String → ℕ → Row
default_category name order =
    ("name", str name) ∷ ("sort_order", num (pos order)) ∷ ("status", num (pos 1)) ∷ []

abbrev pub default_categories : List Row
default_categories =
    default_category "住宅" 100
    ∷ default_category "公寓" 90
    ∷ default_category "别墅" 80
    ∷ default_category "商铺" 70
    ∷ default_category "写字楼" 60
    ∷ []

abbrev pub default_admin : Row
default_admin =
    ("username", str "admin")
    ∷ ("password", str "admin123")
    ∷ ("token", str "jintai_admin_2026")
    ∷ []

-- rows.forEach(row => insert(table, row))
unfoldable pub insert_each : Table → List Row → String → Process → Process
insert_each t [] now s = s
insert_each t (r ∷ rs) now s = insert_each t rs now (insert t r now s).1

-- The body of `if (data[table].length === 0)`, for a table's default rows.
unfoldable pub insert_if_empty : Table → List Row → String → Process → Process
insert_if_empty t defaults now s =
    if length ((cached s).tables t) == 0 then insert_each t defaults now s else s

-- initDefaultData
unfoldable pub init_default_data : String → Process → Process
init_default_data now s =
    let s1 = insert_if_empty categories default_categories now (load_data now s) in
    let s2 = insert_if_empty admins (default_admin ∷ []) now s1 in flush_now now s2

-- A new process over the file that this one leaves, with its own DEFAULT_DATA.
unfoldable pub restart : StoreData → Process → Process
restart defaults s = record {
  cache = none;
  dirty = false;
  timer = false;
  file = s.file;
  default_data = defaults;
  shared = λ t. false;
  shared_meta = false;
}
