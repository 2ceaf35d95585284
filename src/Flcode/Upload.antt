-- ===== src/Flcode/Upload.antt =====
-- POST /upload of FLcode/src/routes/admin.ts. What the library reads of the workbook is an argument:
-- the rows that are not empty, each with its number and the texts of its first three cells, which
-- are String(value || '').trim().
use Prim.Native.String.{◌++◌ as str_append}
use jtfp_cloudrun.Base.{
  ℕ, ◌==◌, leb, String, Bool, true, false, not, map, ◌&&◌, none, some, List, [], ◌∷◌, ◌++◌, length,
  take, if◌then◌else◌, str_eq,
}
use jtfp_cloudrun.Js.{int, bool, str}
use jtfp_cloudrun.Js.Text.{print_ℕ, codes}
use jtfp_cloudrun.Js.Objects.{Row}
use jtfp_cloudrun.Flcode.{Sqlite}
use jtfp_cloudrun.Flcode.Codes.{Item, BatchResult, add_codes_batch}
use jtfp_cloudrun.Http.{Response, json, status_json}
use jtfp_cloudrun.Flcode.Sessions.{Route, auth_middleware}

pub record SheetRow : Type 0 where
  pub number : ℕ
  pub phone : String
  pub code : String
  pub note : String

abbrev is_digit : ℕ → Bool
is_digit c = leb b'0' c && leb c b'9'

abbrev all_digits : List ℕ → Bool
all_digits [] = true
all_digits (c ∷ cs) = is_digit c && all_digits cs

-- /^1[3-9]\d{9}$/
unfoldable pub is_phone : String → Bool
is_phone text = elim (codes text) [
  | [] ↦ false
  | a ∷ rest ↦ elim rest [
    | [] ↦ false
    | b ∷ more ↦ a == b'1' && leb b'3' b && leb b b'9' && length more == 9 && all_digits more
  ]
]

-- /^\d{6}$/
unfoldable pub is_code : String → Bool
is_code text = length (codes text) == 6 && all_digits (codes text)

-- What the rows give: the lines to import, and the messages of the others.
abbrev join : List String → String
join [] = ""
join (p ∷ ps) = str_append p (join ps)

abbrev item_of : SheetRow → Item
item_of r = record {
  phone = r.phone;
  code = r.code;
  note = if str_eq r.note "" then none else some r.note;
}

-- The loop over the rows, the header's row skipped.
unfoldable pub parse_rows : List SheetRow → List Item × List String
parse_rows [] = ([], [])
parse_rows (r ∷ rows) =
    let (items, errors) = parse_rows rows in
    if r.number == 1
    then (items, errors)
    else if not (is_phone r.phone)
    then (items, join ("第 " ∷ print_ℕ r.number ∷ " 行：手机号格式无效 (" ∷ r.phone ∷ ")" ∷ []) ∷ errors)
    else if not (is_code r.code)
    then (items, join ("第 " ∷ print_ℕ r.number ∷ " 行：码格式无效，需要6位数字 (" ∷ r.code ∷ ")" ∷ []) ∷ errors)
    else (item_of r ∷ items, errors)

-- What the request brings: nothing, a file that the library cannot read, a workbook without a sheet,
-- or a sheet.
pub data Upload : Type 0 where
  no_file : Upload
  broken : String → Upload
  no_sheet : Upload
  sheet : List SheetRow → Upload

abbrev bad : Row → Response
bad r = status_json 400 (("ok", bool false) ∷ r)

-- A list of texts: each text is an object of its own here, under the key "error".
abbrev error_rows : List String → List Row
error_rows errors = map (λ e. ("error", str e) ∷ []) errors

abbrev no_items : List String → Response
no_items errors = record {
  status = 400;
  body = record {
    fields = ("ok", bool false) ∷ ("message", str "未找到有效数据") ∷ [];
    objects = [];
    lists = ("errors", error_rows errors) ∷ [];
  };
}

abbrev imported : BatchResult → List String → Response
imported r errors = json (record {
  fields =
      ("ok", bool true)
      ∷ (
        "message",
        str (join ("导入完成：成功 " ∷ print_ℕ r.success ∷ " 条，失败 " ∷ print_ℕ r.failed ∷ " 条" ∷ [])),
      )
      ∷ ("success", int r.success)
      ∷ ("failed", int r.failed)
      ∷ [];
  objects = [];
  lists = ("errors", error_rows (take 50 (errors ++ r.errors))) ∷ [];
})

module _ (q : Sqlite) where
  abbrev import_items : List Item → List String → Route q
  import_items [] errors s = (no_items errors, s)
  import_items (item ∷ items) errors s =
      let (result, db) = add_codes_batch q (item ∷ items) s.db in
      (imported result errors, record s { db = db })

  abbrev import_upload : Upload → Route q
  import_upload no_file s = (bad (("message", str "请选择文件") ∷ []), s)
  import_upload (broken message) s = (
    status_json 500 (
        ("ok", bool false)
        ∷ ("message", str (if str_eq message "" then "文件处理失败" else message))
        ∷ []),
    s,
  )
  import_upload no_sheet s = (bad (("message", str "Excel 文件为空") ∷ []), s)
  import_upload (sheet rows) s =
      let (items, errors) = parse_rows rows in import_items items errors s

  -- POST /upload
  unfoldable pub post_upload : String → ℕ → Upload → Route q
  post_upload token now upload = auth_middleware q token now (import_upload upload)
