-- ===== src/Tests/FlcodeRuns.antt =====
-- FLcode over a small table of codes, newest first.
use jtfp_cloudrun.Base.{
  ℕ, ◌+◌, String, ◌≡◌, ◌≢◌, refl, Bool, false, Option, none, some, List, [], ◌∷◌, arith, str_eq,
  eq_iff, eq_refl, find, length,
}
use jtfp_cloudrun.Flcode.{
  FlCode, Inserted, row_id, constraint_unique, changes, Sqlite, IsUniqueTable,
}
use jtfp_cloudrun.Flcode.Codes.{Item, add_codes_batch, get_code_by_phone}
use jtfp_cloudrun.Flcode.Codes.Batch.{
  code_and_note, first_of, or_first, add_codes_batch-claims, add_codes_batch-counts,
}
use jtfp_cloudrun.Flcode.Sessions.{
  Sessions, day, expiry_of, set_session, delete_session, Server, refused, auth_middleware,
  get_verify,
}
use jtfp_cloudrun.Flcode.Sessions.Laws.{
  Event, login, logout, request, run_events, auth_middleware-kept, auth_middleware-logged_out,
}
use jtfp_cloudrun.Flcode.Admin.{delete_codes_route}

abbrev has_phone : String → FlCode → Bool
has_phone phone r = str_eq r.phone phone

abbrev new_code : String → String → Option String → FlCode
new_code phone code note = record {
  id = 1;
  phone = phone;
  code = code;
  note = note;
  created_at = "";
  updated_at = "";
}

abbrev insert_new : Option FlCode → FlCode → List FlCode → Inserted × List FlCode
insert_new none r db = (row_id 1, r ∷ db)
insert_new (some old) r db = (constraint_unique, db)

abbrev table : Sqlite
table = record {
  Db = List FlCode;
  insert_or_ignore = λ k v db. db;
  code_by_phone = λ phone db. find (has_phone phone) db;
  page_of_codes = λ size offset db. db;
  count_codes = λ db. length db;
  page_like = λ like size offset db. [];
  count_like = λ like db. 0;
  insert_code =
      λ phone code note db. insert_new (find (has_phone phone) db) (new_code phone code note) db;
  set_code = λ phone code note id db. (changes 0, db);
  delete_id = λ id db. (0, db);
  delete_all = λ db. [];
  config_value = λ k db. none;
  config_rows = λ db. [];
  insert_or_replace = λ k v db. db;
}

found_new :
    (phone code : String) (n : Option String) (db : List FlCode)
    → find (has_phone phone) (new_code phone code n ∷ db) ≡ some (new_code phone code n)
found_new phone code n db = rw (eq_refl phone)

table-inserted :
    (p c : String) (n : Option String) (db : List FlCode)
    → find (has_phone p) db ≡ none
    → (i : ℕ) × (row : FlCode) × ((table.insert_code p c n db).0 ≡ row_id i)
      × (table.code_by_phone p (table.insert_code p c n db).1 ≡ some row)
      × (row.code ≡ c)
      × (row.note ≡ n)
table-inserted p c n db e = (1, new_code p c n, rw e, rw e (found_new p c n db), refl, refl)

table-others :
    (p r c : String) (n : Option String) (db : List FlCode)
    → p ≢ r
    → find (has_phone r) (table.insert_code p c n db).1 ≡ find (has_phone r) db
table-others p r c n db h = ground (arith, eq_iff p r, h)

table-IsUniqueTable : IsUniqueTable table
table-IsUniqueTable = record {
  inserted = table-inserted;
  refused = λ p c n db row e. rw e;
  others = table-others;
}

abbrev items : List Item
items =
    record { phone = "13800138000"; code = "123456"; note = some "new" }
    ∷ record { phone = "13900139000"; code = "654321"; note = none }
    ∷ record { phone = "13800138000"; code = "111111"; note = none }
    ∷ []

abbrev old : List FlCode
old = new_code "13900139000" "222222" none ∷ []

add_codes_batch-claims_example :
    code_and_note (get_code_by_phone table "13800138000" (add_codes_batch table items old).1)
    ≡ or_first
        (code_and_note (get_code_by_phone table "13800138000" old))
        (first_of "13800138000" items)
add_codes_batch-claims_example =
    add_codes_batch-claims table table-IsUniqueTable "13800138000" items old

add_codes_batch-counts_example :
    ((add_codes_batch table items old).0.success + (add_codes_batch table items old).0.failed ≡ 3)
    × (length (add_codes_batch table items old).0.errors
        ≡ (add_codes_batch table items old).0.failed)
add_codes_batch-counts_example = add_codes_batch-counts table items old

-- The administrator uses the token t once, while another logs in and out.
abbrev sessions : Sessions
sessions = ("t", 1000) ∷ []

abbrev events : List Event
events = login "u" 500 ∷ request "t" 900 ∷ logout "u" ∷ request "x" 950 ∷ []

text_ne : (a b : String) → str_eq a b ≡ false → a ≢ b
text_ne a b e h = ground (arith, e, (eq_iff a b).1 h)

auth_middleware-kept_example :
    auth_middleware table "t" 2000
      (λ s. get_verify table "u" 0 s)
      (record { sessions = run_events events sessions; db = old })
    ≡ get_verify table "u" 0
        (record { sessions = set_session "t" (2000 + day) (run_events events sessions); db = old })
unfolding expiry_of
auth_middleware-kept_example =
    auth_middleware-kept "t" (text_ne "t" "" refl) table 1000 2000 events sessions
      (λ s. get_verify table "u" 0 s) old refl
      ((λ e. omega arith), (text_ne "u" "t" refl, ((λ e. absurd (text_ne "x" "t" refl e)), tt)))
      (omega arith)

abbrev logged_out : Server table
logged_out = record { sessions = run_events events (delete_session "t" sessions); db = old }

auth_middleware-logged_out_example :
    (message : String) × ((delete_codes_route table "t" 2000 logged_out).0 ≡ refused message)
    × ((delete_codes_route table "t" 2000 logged_out).1.db ≡ old)
unfolding delete_codes_route
auth_middleware-logged_out_example =
    auth_middleware-logged_out "t" table 2000 events sessions _ old (text_ne "u" "t" refl, tt)
