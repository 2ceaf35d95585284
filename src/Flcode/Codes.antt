-- ===== src/Flcode/Codes.antt =====
-- The operations on welfare codes of FLcode/src/db.ts. A transaction whose function throws nothing
-- is its function: the only errors of an import are caught inside it.
pub mod Batch
use Prim.Native.String.{◌++◌ as str_append}
use jtfp_cloudrun.Base.{
  ℕ, suc, ◌+◌, ◌==◌, String, Bool, true, false, Option, none, some, List, [], ◌∷◌, ◌++◌,
  if◌then◌else◌, str_eq,
}
use jtfp_cloudrun.Base.Int.{ℤ, pos, ◌-ℤ◌, ◌*ℤ◌}
use jtfp_cloudrun.Flcode.{
  FlCode, Inserted, row_id, constraint_unique, failure, Updated, changes, update_not_unique,
  update_failure, Sqlite,
}

pub record Codes : Type 0 where
  pub rows : List FlCode
  pub total : ℕ

pub record Done : Type 0 where
  pub success : Bool
  pub message : String
  pub id : Option ℕ

-- note || null
abbrev pub note_or_null : Option String → Option String
note_or_null none = none
note_or_null (some note) = if str_eq note "" then none else some note

-- e.message || fallback
abbrev message_or : String → String → String
message_or message fallback = if str_eq message "" then fallback else message

abbrev pub failed_with : String → Done
failed_with message = record { success = false; message = message; id = none }

abbrev pub done_with : String → Done
done_with message = record { success = true; message = message; id = none }

-- A line of an import.
pub record Item : Type 0 where
  pub phone : String
  pub code : String
  pub note : Option String

pub record BatchResult : Type 0 where
  pub success : ℕ
  pub failed : ℕ
  pub errors : List String

module _ (q : Sqlite) where
  -- getCodeByPhone
  unfoldable pub get_code_by_phone : String → q.Db → Option FlCode
  get_code_by_phone phone db = q.code_by_phone phone db

  -- getAllCodes
  unfoldable pub get_all_codes : ℤ → ℤ → q.Db → Codes
  get_all_codes page page_size db = record {
    rows = q.page_of_codes page_size ((page -ℤ pos 1) *ℤ page_size) db;
    total = q.count_codes db;
  }

  -- searchCodes
  unfoldable pub search_codes : String → ℤ → ℤ → q.Db → Codes
  search_codes keyword page page_size db =
      let like = str_append "%" (str_append keyword "%") in
      record {
        rows = q.page_like like page_size ((page -ℤ pos 1) *ℤ page_size) db;
        total = q.count_like like db;
      }

  abbrev added : Inserted → Done
  added (row_id i) = record { success = true; message = "添加成功"; id = some i }
  added constraint_unique = failed_with "该手机号已存在"
  added (failure message) = failed_with (message_or message "添加失败")

  -- addCode
  unfoldable pub add_code : String → String → Option String → q.Db → Done × q.Db
  add_code phone code note db =
      let (result, db1) = q.insert_code phone code (note_or_null note) db in (added result, db1)

  -- The counts and the errors behind one insertion.
  abbrev pub counted : Inserted → String → BatchResult → BatchResult
  counted (row_id i) phone r = record r { success = r.success + 1 }
  counted constraint_unique phone r = record r {
    failed = r.failed + 1;
    errors = r.errors ++ str_append "手机号 " (str_append phone " 已存在") ∷ [];
  }
  counted (failure message) phone r = record r {
    failed = r.failed + 1;
    errors = r.errors ++ str_append "手机号 " (str_append phone (str_append ": " message)) ∷ [];
  }

  -- The loop of addCodesBatch.
  unfoldable pub add_each : List Item → BatchResult → q.Db → BatchResult × q.Db
  add_each [] r db = (r, db)
  add_each (item ∷ items) r db =
      let (result, db1) = q.insert_code item.phone item.code (note_or_null item.note) db in
      add_each items (counted result item.phone r) db1

  -- addCodesBatch
  unfoldable pub add_codes_batch : List Item → q.Db → BatchResult × q.Db
  add_codes_batch items db = add_each items (record { success = 0; failed = 0; errors = [] }) db

  abbrev updated : Updated → Done
  updated (changes n) = if n == 0 then failed_with "记录不存在" else done_with "更新成功"
  updated update_not_unique = failed_with "该手机号已存在"
  updated (update_failure message) = failed_with (message_or message "更新失败")

  -- updateCode
  unfoldable pub update_code : ℤ → String → String → Option String → q.Db → Done × q.Db
  update_code id phone code note db =
      let (result, db1) = q.set_code phone code (note_or_null note) id db in (updated result, db1)

  -- deleteCode
  unfoldable pub delete_code : ℤ → q.Db → Done × q.Db
  delete_code id db =
      let (n, db1) = q.delete_id id db in
      (if n == 0 then failed_with "记录不存在" else done_with "删除成功", db1)

  -- clearAllCodes
  unfoldable pub clear_all_codes : q.Db → Done × q.Db
  clear_all_codes db = (done_with "已清空所有数据", q.delete_all db)
