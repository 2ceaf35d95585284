-- ===== src/Flcode/Admin.antt =====
-- The administration of FLcode: the routes of FLcode/src/routes/admin.ts behind authMiddleware. A
-- body that its schema has validated, or the issue that it found, is an argument; a number of the
-- query or the path is what parseInt gives, `none` for NaN. `token` is the header's, `now` the clock.
use jtfp_cloudrun.Base.{
  ℕ, ◌+◌, ◌-◌, ◌/◌, ◌==◌, leb, String, true, false, Option, none, some, List, [], ◌∷◌, map,
  if◌then◌else◌, str_eq,
}
use jtfp_cloudrun.Base.Int.{ℤ, pos, negsuc, leb_ℤ, eq_ℤ}
use jtfp_cloudrun.Js.{Value, undefined, null, str, int, bool, text_of}
use jtfp_cloudrun.Js.Objects.{Row, get}
use jtfp_cloudrun.Http.{Body, Response, json, status_json, fields_only, Parsed, parsed, rejected}
use jtfp_cloudrun.Flcode.{FlCode, Sqlite}
use jtfp_cloudrun.Flcode.Codes.{
  Codes, Done, get_all_codes, search_codes, add_code, update_code, delete_code, clear_all_codes,
}
use jtfp_cloudrun.Flcode.Config.{get_all_config, set_configs}
use jtfp_cloudrun.Flcode.Sessions.{Route, auth_middleware, issue_refused}

-- parseInt(text) || fallback
abbrev int_or : Option ℤ → ℕ → ℤ
int_or none fallback = pos fallback
int_or (some n) fallback = if eq_ℤ n (pos 0) then pos fallback else n

-- Math.max(1, n), a number that is not negative
unfoldable pub at_least_one : ℤ → ℕ
at_least_one (pos n) = if n == 0 then 1 else n
at_least_one (negsuc n) = 1

-- Math.min(100, n)
abbrev at_most_hundred : ℕ → ℕ
at_most_hundred n = if leb n 100 then n else 100

-- Math.ceil(total / size), for a size that is not 0
unfoldable pub pages_of : ℕ → ℕ → ℕ
pages_of total size = (total + (size - 1)) / size

abbrev note_value : Option String → Value
note_value none = null
note_value (some note) = str note

abbrev code_row : FlCode → Row
code_row c =
    ("id", int c.id)
    ∷ ("phone", str c.phone)
    ∷ ("code", str c.code)
    ∷ ("note", note_value c.note)
    ∷ ("created_at", str c.created_at)
    ∷ ("updated_at", str c.updated_at)
    ∷ []

abbrev codes_body : ℕ → ℕ → Codes → Body
codes_body page size result = record {
  fields = ("ok", bool true) ∷ [];
  objects =
      (
        "pagination",
        ("page", int page)
            ∷ ("pageSize", int size)
            ∷ ("total", int result.total)
            ∷ ("totalPages", int (pages_of result.total size))
            ∷ [],
      )
      ∷ [];
  lists = ("data", map code_row result.rows) ∷ [];
}

abbrev ok : String → Response
ok message = json (fields_only (("ok", bool true) ∷ ("message", str message) ∷ []))

abbrev bad : String → Response
bad message = status_json 400 (("ok", bool false) ∷ ("message", str message) ∷ [])

abbrev id_value : Option ℕ → Value
id_value none = undefined
id_value (some i) = int i

abbrev done_or_bad : Done → Response
done_or_bad d = if d.success then ok d.message else bad d.message

abbrev added_or_bad : Done → Response
added_or_bad d =
    if d.success
    then json
        (fields_only (("ok", bool true) ∷ ("message", str d.message) ∷ ("id", id_value d.id) ∷ []))
    else bad d.message

abbrev optional_text : Value → Option String
optional_text (str s) = some s
optional_text v = none

-- The validated fields that are not undefined: all are texts.
unfoldable pub given_configs : Row → List (String × String)
given_configs [] = []
given_configs ((key, value) ∷ rest) =
    let others = given_configs rest in elim value [ str text ↦ (key, text) ∷ others | _ ↦ others ]

module _ (q : Sqlite) (token : String) (now : ℕ) where
  -- GET /config
  unfoldable pub get_config_route : Route q
  get_config_route = auth_middleware q token now (λ s. (
    json (record {
      fields = ("ok", bool true) ∷ [];
      objects = ("data", get_all_config q s.db) ∷ [];
      lists = [];
    }),
    s,
  ))

  abbrev write_config : Parsed → Route q
  write_config (rejected issue) s = (issue_refused issue, s)
  write_config (parsed body) s =
      (ok "配置已更新", record s { db = set_configs q (given_configs body) s.db })

  -- POST /config: with no entry, setConfigs is not called, and would write nothing.
  unfoldable pub post_config : Parsed → Route q
  post_config body = auth_middleware q token now (write_config body)

  -- GET /codes
  unfoldable pub get_codes_route : Option ℤ → Option ℤ → String → Route q
  get_codes_route page size keyword = auth_middleware q token now (λ s.
      let number = at_least_one (int_or page 1) in
      let length = at_most_hundred (at_least_one (int_or size 20)) in
      let result =
        if str_eq keyword ""
        then get_all_codes q (pos number) (pos length) s.db
        else search_codes q keyword (pos number) (pos length) s.db in
      (json (codes_body number length result), s))

  abbrev insert_code : Parsed → Route q
  insert_code (rejected issue) s = (issue_refused issue, s)
  insert_code (parsed body) s =
      let (result, db) =
        add_code q (text_of (get "phone" body)) (text_of (get "code" body))
          (optional_text (get "note" body)) s.db in
      (added_or_bad result, record s { db = db })

  -- POST /codes
  unfoldable pub post_code_route : Parsed → Route q
  post_code_route body = auth_middleware q token now (insert_code body)

  abbrev change_code : ℤ → Parsed → Route q
  change_code id (rejected issue) s = (issue_refused issue, s)
  change_code id (parsed body) s =
      let (result, db) =
        update_code q id (text_of (get "phone" body)) (text_of (get "code" body))
          (optional_text (get "note" body)) s.db in
      (done_or_bad result, record s { db = db })

  -- PUT /codes/:id, where `id` is what the schema's coercion gives of the path
  unfoldable pub put_code_route : ℤ → Parsed → Route q
  put_code_route id body = auth_middleware q token now (change_code id body)

  abbrev remove_code : Option ℤ → Route q
  remove_code none s = (bad "无效的 ID", s)
  remove_code (some id) s =
      if leb_ℤ id (pos 0)
      then (bad "无效的 ID", s)
      else (let (result, db) = delete_code q id s.db in (done_or_bad result, record s { db = db }))

  -- DELETE /codes/:id
  unfoldable pub delete_code_route : Option ℤ → Route q
  delete_code_route id = auth_middleware q token now (remove_code id)

  -- DELETE /codes
  unfoldable pub delete_codes_route : Route q
  delete_codes_route =
      auth_middleware q token now (λ s.
        let (result, db) = clear_all_codes q s.db in (ok result.message, record s { db = db }))
