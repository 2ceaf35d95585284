-- ===== src/Routes/AdminProperties/Import.antt =====
-- The import of a workbook, POST /import of src/routes/api_v1/admin/properties.ts. What the library
-- reads of the file is an argument: the cells of the first row, and of the other rows that are not
-- empty. A header that names a property of every JavaScript object is outside the model.
use Prim.Native.String.{◌++◌ as str_append}
use jtfp_cloudrun.Base.{
  ℕ, String, true, ◌||◌, Option, none, some, List, [], ◌∷◌, filter, map, if◌then◌else◌, str_eq,
}
use jtfp_cloudrun.Js.{Value, undefined, null, bool, str, int, truthy, to_text, or_else}
use jtfp_cloudrun.Js.Text.{includes, print_ℕ, pad_start}
use jtfp_cloudrun.Js.Objects.{Row, get, put}
use jtfp_cloudrun.Http.{sent, Handler, json, status_json, error_only, fields_only}
use jtfp_cloudrun.Repositories.Properties.{bulk_insert}

-- The Chinese headers and the fields that they stand for.
abbrev pub header_map : List (String × String)
header_map =
    ("开拍时间", "auction_time")
    ∷ ("竞价阶段", "bidding_phase")
    ∷ ("小区名称", "community_name")
    ∷ ("详细地址", "detail_address")
    ∷ ("建筑面积/㎡", "building_area")
    ∷ ("房屋户型", "house_type")
    ∷ ("楼层", "floor_info")
    ∷ ("建筑年份", "building_year")
    ∷ ("装修情况", "decoration_status")
    ∷ ("物业现状", "property_status")
    ∷ ("持有年数", "holding_years")
    ∷ ("物业类型", "property_type")
    ∷ ("起拍价", "starting_price")
    ∷ ("起拍单价", "starting_unit_price")
    ∷ ("竞拍平台", "auction_platform")
    ∷ ("竞拍保证金", "auction_deposit")
    ∷ ("加价幅度", "price_increment")
    ∷ ("评估总价", "evaluation_total_price")
    ∷ ("评估单价", "evaluation_unit_price")
    ∷ ("7成可贷金额", "loan_70_percent")
    ∷ ("8成可贷金额", "loan_80_percent")
    ∷ ("9成可贷金额", "loan_90_percent")
    ∷ ("市场参考总价", "market_total_price")
    ∷ ("市场参考单价", "market_unit_price")
    ∷ ("学区", "school_district")
    ∷ ("商圈", "business_circle")
    ∷ ("捡漏空间", "profit_space")
    ∷ ("授权码", "auth_code")
    ∷ ("契税率", "deed_tax_rate")
    ∷ ("契税金额", "deed_tax_amount")
    ∷ ("增值税率", "vat_rate")
    ∷ ("增值税金额", "vat_amount")
    ∷ ("个税率", "income_tax_rate")
    ∷ ("个税金额", "income_tax_amount")
    ∷ ("客户姓名", "customer_name")
    ∷ ("客户联系号码", "customer_phone")
    ∷ ("客户尽调简介", "customer_survey_brief")
    ∷ ("归属业务员", "assigned_salesman")
    ∷ ("unionID", "unionID")
    ∷ ("OpenID", "openID")
    ∷ []

-- A date in UTC, its month from 1.
pub record DateParts : Type 0 where
  pub year : ℕ
  pub month : ℕ
  pub day : ℕ
  pub hours : ℕ
  pub minutes : ℕ
  pub seconds : ℕ

-- cell.value: a scalar (null where the cell is empty), a date with the cell's number format, a rich
-- text with the texts of its runs, a formula with its result.
pub data Cell : Type 0 where
  scalar : Value → Cell
  date : DateParts → String → Cell
  rich_text : List String → Cell
  formula : Value → Cell

abbrev join_texts : List String → String
join_texts [] = ""
join_texts (t ∷ ts) = str_append t (join_texts ts)

-- `${year}/${month}/${day}`
unfoldable pub day_text : DateParts → String
day_text d = join_texts (print_ℕ d.year ∷ "/" ∷ print_ℕ d.month ∷ "/" ∷ print_ℕ d.day ∷ [])

-- The text of a date, by the cell's format.
unfoldable pub date_text : DateParts → String → String
date_text d format =
    if includes format "h:mm:ss" || includes format "hh:mm:ss"
    then join_texts (
        day_text d
        ∷ " "
        ∷ print_ℕ d.hours
        ∷ ":"
        ∷ pad_start d.minutes 2
        ∷ ":"
        ∷ pad_start d.seconds 2
        ∷ [])
    else if includes format "h:mm" || includes format "hh:mm"
    then join_texts (day_text d ∷ " " ∷ print_ℕ d.hours ∷ ":" ∷ pad_start d.minutes 2 ∷ ":00" ∷ [])
    else day_text d

-- finalValue, of the column of the auction time
unfoldable pub auction_value : Cell → Value
auction_value (date d format) = str (date_text d format)
auction_value (scalar (str s)) = str s
auction_value (rich_text texts) = str (join_texts texts)
auction_value (formula result) = result
auction_value (scalar v) = if truthy v then v else null

-- The field that a header stands for: HEADER_MAP[header]
unfoldable pub field_of_header : List (String × String) → String → Option String
field_of_header [] header = none
field_of_header ((h, field) ∷ rest) header =
    if str_eq h header then some field else field_of_header rest header

-- `trim`, and the text of a date by Date.prototype.toString
module _ (trim : String → String) (date_string : DateParts → String) where
  -- v?.toString().trim()
  unfoldable pub trimmed : Value → Value
  trimmed undefined = undefined
  trimmed null = undefined
  trimmed v = str (trim (to_text v))

  -- finalValue?.toString ? finalValue.toString().trim() : finalValue
  unfoldable pub auction_text : Value → Value
  auction_text undefined = undefined
  auction_text null = null
  auction_text v = str (trim (to_text v))

  unfoldable pub cell_text : Cell → Value
  cell_text (scalar v) = trimmed v
  cell_text (date d format) = str (trim (date_string d))
  cell_text (rich_text texts) = str (trim "[object Object]")
  cell_text (formula result) = trimmed result

  unfoldable pub cell_value : String → Cell → Value
  cell_value field cell =
      if str_eq field "auction_time"
      then auction_text (auction_value cell)
      else or_else (cell_text cell) null

  -- A header cell: cell.value?.toString().trim() || '', a formula being an object there.
  unfoldable pub header_text : Cell → String
  header_text (formula result) = trim "[object Object]"
  header_text cell = elim (cell_text cell) [ str s ↦ s | _ ↦ "" ]

  abbrev put_cell : Option String → Cell → Row → Row
  put_cell none cell r = r
  put_cell (some field) cell r = put field (cell_value field cell) r

  -- The cells of a row, under the headers of their columns.
  unfoldable pub row_data : List Cell → List Cell → Row → Row
  row_data [] cells r = r
  row_data headers [] r = r
  row_data (h ∷ headers) (cell ∷ cells) r =
      row_data headers cells (put_cell (field_of_header header_map (header_text h)) cell r)

  -- The rows that have a community name.
  unfoldable pub sheet_rows : List Cell → List (List Cell) → List Row
  sheet_rows headers rows =
      filter (λ r. truthy (get "community_name" r)) (map (λ cells. row_data headers cells []) rows)

  -- What the request brings.
  pub data Upload : Type 0 where
    no_file : Upload
    broken : String → Upload
    no_sheet : Upload
    sheet : List Cell → List (List Cell) → Upload

  abbrev insert_rows : List Row → String → Handler
  insert_rows [] now s = (sent (status_json 400 (error_only "未找到有效数据（小区名称不能为空）")), s)
  insert_rows (r ∷ rows) now s =
      let (n, s1) = bulk_insert (r ∷ rows) now s in
      (
        sent (
            json (
              fields_only (
                ("success", bool true)
                ∷ ("message", str (join_texts ("成功导入 " ∷ print_ℕ n ∷ " 条房源数据" ∷ [])))
                ∷ ("count", int n)
                ∷ []))),
        s1,
      )

  -- POST /import
  unfoldable pub post_import : Upload → String → Handler
  post_import no_file now s = (sent (status_json 400 (error_only "请上传文件")), s)
  post_import (broken message) now s = (sent (status_json 500 (error_only message)), s)
  post_import no_sheet now s = (sent (status_json 400 (error_only "Excel文件内容为空")), s)
  post_import (sheet headers rows) now s = insert_rows (sheet_rows headers rows) now s
