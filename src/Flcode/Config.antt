-- ===== src/Flcode/Config.antt =====
-- The configuration of FLcode/src/db.ts, and what the public page reads of it and of the codes:
-- FLcode/src/routes/user.ts. A body that its schema has validated is an argument.
use jtfp_cloudrun.Base.{
  String, true, false, Option, none, some, List, [], ◌∷◌, if◌then◌else◌, str_eq,
}
use jtfp_cloudrun.Js.{Value, null, str, bool, or_else, text_of}
use jtfp_cloudrun.Js.Objects.{Row, get, put}
use jtfp_cloudrun.Http.{Response, json, status_json, fields_only, Parsed, parsed, rejected}
use jtfp_cloudrun.Flcode.{FlCode, Sqlite}
use jtfp_cloudrun.Flcode.Codes.{get_code_by_phone}

-- The default configuration of initDB.
abbrev pub default_configs : List (String × String)
default_configs =
    ("success_msg", "恭喜您，领取成功！")
    ∷ ("fail_msg", "抱歉，未找到您的福利码，请确认手机号是否正确。")
    ∷ ("usage_tip", "请在有效期内使用此码，复制码到指定页面兑换即可。")
    ∷ ("admin_password", "admin123")
    ∷ ("page_title", "福利码领取")
    ∷ []

-- text || fallback, of a text that may be null or undefined
abbrev pub text_or : Option String → String → String
text_or none fallback = fallback
text_or (some text) fallback = if str_eq text "" then fallback else text

module _ (q : Sqlite) where
  -- for (const config of configs) run(config.key, config.value)
  unfoldable pub run_each : (String → String → q.Db → q.Db) → List (String × String) → q.Db → q.Db
  run_each run [] db = db
  run_each run ((key, value) ∷ rest) db = run_each run rest (run key value db)

  -- initDB, behind the creation of the tables
  unfoldable pub init_db : q.Db → q.Db
  init_db db = run_each q.insert_or_ignore default_configs db

  -- getConfig
  unfoldable pub get_config : String → q.Db → Option String
  get_config key db = q.config_value key db

  abbrev to_object : List (String × String) → Row → Row
  to_object [] r = r
  to_object ((key, value) ∷ rest) r = to_object rest (put key (str value) r)

  -- getAllConfig
  unfoldable pub get_all_config : q.Db → Row
  get_all_config db = to_object (q.config_rows db) []

  -- setConfig
  unfoldable pub set_config : String → String → q.Db → q.Db
  set_config key value db = q.insert_or_replace key value db

  -- setConfigs, on the entries of its argument: its transaction is its function where no statement
  -- throws.
  unfoldable pub set_configs : List (String × String) → q.Db → q.Db
  set_configs configs db = run_each q.insert_or_replace configs db

  -- GET /config of user.ts: not the administrator's password
  unfoldable pub get_page_config : q.Db → Response
  get_page_config db =
      let config = get_all_config db in
      json (record {
        fields = ("ok", bool true) ∷ [];
        objects =
            (
              "data",
              ("page_title", or_else (get "page_title" config) (str "福利码领取"))
                  ∷ ("success_msg", or_else (get "success_msg" config) (str "恭喜您，领取成功！"))
                  ∷ ("fail_msg", or_else (get "fail_msg" config) (str "抱歉，未找到您的福利码。"))
                  ∷ ("usage_tip", or_else (get "usage_tip" config) (str "请在有效期内使用此码。"))
                  ∷ [],
            )
            ∷ [];
        lists = [];
      })

  abbrev note_value : Option String → Value
  note_value none = null
  note_value (some note) = str note

  abbrev claimed : Option FlCode → q.Db → Response
  claimed none db = json (
      fields_only (
        ("ok", bool true)
        ∷ ("found", bool false)
        ∷ ("message", str (text_or (get_config "fail_msg" db) "抱歉，未找到您的福利码，请确认手机号是否正确。"))
        ∷ []))
  claimed (some record_found) db = json (
      fields_only (
        ("ok", bool true)
        ∷ ("found", bool true)
        ∷ ("code", str record_found.code)
        ∷ ("note", note_value record_found.note)
        ∷ ("message", str (text_or (get_config "success_msg" db) "恭喜您，领取成功！"))
        ∷ ("usage_tip", str (text_or (get_config "usage_tip" db) "请在有效期内使用此码。"))
        ∷ []))

  -- The answer to a body that its schema refuses, with the first issue's message.
  abbrev issue_message : Option (List String × String) → String → Response
  issue_message none fallback =
      status_json 400 (("ok", bool false) ∷ ("message", str fallback) ∷ [])
  issue_message (some issue) fallback =
      status_json 400 (("ok", bool false) ∷ ("message", str (text_or (some issue.1) fallback)) ∷ [])

  -- POST /claim of user.ts
  unfoldable pub post_claim : Parsed → q.Db → Response
  post_claim (rejected issue) db = issue_message issue "参数错误"
  post_claim (parsed body) db =
      let phone = text_of (get "phone" body) in claimed (get_code_by_phone q phone db) db
