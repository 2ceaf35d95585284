-- ===== src/Flcode.antt =====
-- FLcode, a service of its own that hands out welfare codes by telephone number: the database that
-- FLcode/src/db.ts opens. The engine is SQLite: a record with one operation for each statement that
-- the program prepares, and the documented behaviour that the theorems rely on.
pub mod Codes
pub mod Config
pub mod Sessions
pub mod Admin
pub mod Upload
use jtfp_cloudrun.Base.{ℕ, String, ◌≡◌, ◌≢◌, Bool, Option, none, some, List, length}
use jtfp_cloudrun.Base.Int.{ℤ}

-- A row of fl_codes
pub record FlCode : Type 0 where
  pub id : ℕ
  pub phone : String
  pub code : String
  pub note : Option String
  pub created_at : String
  pub updated_at : String

-- What `run` gives for an insertion: the last row's identifier, or the error that it throws.
pub data Inserted : Type 0 where
  row_id : ℕ → Inserted
  constraint_unique : Inserted
  failure : String → Inserted

-- What `run` gives for an update: how many rows have changed, or the error that it throws.
pub data Updated : Type 0 where
  changes : ℕ → Updated
  update_not_unique : Updated
  update_failure : String → Updated

-- The statements of db.ts, in the order of the file.
pub record Sqlite : Type 1 where
  pub Db : Type 0
  -- INSERT OR IGNORE INTO fl_config (key, value) VALUES (?, ?)
  pub insert_or_ignore : String → String → Db → Db
  -- SELECT * FROM fl_codes WHERE phone = ?
  pub code_by_phone : String → Db → Option FlCode
  -- SELECT * FROM fl_codes ORDER BY id DESC LIMIT ? OFFSET ?, and SELECT COUNT(*) FROM fl_codes
  pub page_of_codes : ℤ → ℤ → Db → List FlCode
  pub count_codes : Db → ℕ
  -- The same WHERE phone LIKE ? OR code LIKE ? OR note LIKE ?
  pub page_like : String → ℤ → ℤ → Db → List FlCode
  pub count_like : String → Db → ℕ
  -- INSERT INTO fl_codes (phone, code, note) VALUES (?, ?, ?)
  pub insert_code : String → String → Option String → Db → Inserted × Db
  -- UPDATE fl_codes SET phone = ?, code = ?, note = ?, updated_at = CURRENT_TIMESTAMP WHERE id = ?
  pub set_code : String → String → Option String → ℤ → Db → Updated × Db
  -- DELETE FROM fl_codes WHERE id = ?, with the number of rows that it deletes
  pub delete_id : ℤ → Db → ℕ × Db
  -- DELETE FROM fl_codes
  pub delete_all : Db → Db
  -- SELECT value FROM fl_config WHERE key = ?
  pub config_value : String → Db → Option String
  -- SELECT key, value FROM fl_config
  pub config_rows : Db → List (String × String)
  -- INSERT OR REPLACE INTO fl_config (key, value) VALUES (?, ?)
  pub insert_or_replace : String → String → Db → Db

-- A phone is UNIQUE in fl_codes: an insertion succeeds where the phone is new, and is then found; it
-- is refused, and changes nothing, where the phone is there. Rows of other phones stay.
pub record IsUniqueTable (q : Sqlite) : Type 0 where
  pub inserted :
      (p c : String) (n : Option String) (db : q.Db)
      → q.code_by_phone p db ≡ none
      → (i : ℕ) × (row : FlCode) × ((q.insert_code p c n db).0 ≡ row_id i)
        × (q.code_by_phone p (q.insert_code p c n db).1 ≡ some row)
        × (row.code ≡ c)
        × (row.note ≡ n)
  pub refused :
      (p c : String) (n : Option String) (db : q.Db) (row : FlCode)
      → q.code_by_phone p db ≡ some row
      → q.insert_code p c n db ≡ (constraint_unique, db)
  pub others :
      (p r c : String) (n : Option String) (db : q.Db)
      → p ≢ r
      → q.code_by_phone r (q.insert_code p c n db).1 ≡ q.code_by_phone r db

-- A key has one value in fl_config: the last that was written.
pub record IsConfigTable (q : Sqlite) : Type 0 where
  pub replaced : (k v : String) (db : q.Db) → q.config_value k (q.insert_or_replace k v db) ≡ some v
  pub kept :
      (k j v : String) (db : q.Db)
      → k ≢ j
      → q.config_value j (q.insert_or_replace k v db) ≡ q.config_value j db
