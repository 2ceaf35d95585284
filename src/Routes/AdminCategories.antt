-- ===== src/Routes/AdminCategories.antt =====
-- src/routes/api_v1/admin/categories.ts, behind requireAdminToken. `id` is what Number gives of the
-- path, a number or NaN; the body is an object of scalar fields.
pub mod Laws
use jtfp_cloudrun.Base.{String, true, not, Option, none, some, [], ◌∷◌, if◌then◌else◌}
use jtfp_cloudrun.Js.{Value, undefined, null, str, int, bool, truthy, or_else, nullish}
use jtfp_cloudrun.Js.Objects.{Row, get}
use jtfp_cloudrun.Http.{Reply, sent, Handler, json, status_json, error_only, fields_only}
use jtfp_cloudrun.Repositories.Categories
use jtfp_cloudrun.Repositories.Properties.{exists_by_category_id}

abbrev done : String → Reply
done message = sent (json (fields_only (("success", bool true) ∷ ("message", str message) ∷ [])))

-- GET /
unfoldable pub get_categories : String → Handler
get_categories now s =
    let (rs, s1) = Categories.list now s in
    (sent (json (record { fields = []; objects = []; lists = ("categories", rs) ∷ [] })), s1)

-- POST /
unfoldable pub post_category : Row → String → Handler
post_category body now s =
    if not (truthy (get "name" body))
    then (sent (status_json 400 (error_only "分类名称不能为空")), s)
    else (let (category, s1) =
          Categories.create
            (("name", get "name" body)
              ∷ ("icon", or_else (get "icon" body) undefined)
              ∷ ("sort_order", or_else (get "sort_order" body) (int 0))
              ∷ ("status", nullish (get "status" body) (int 1))
              ∷ [])
            now s in
        (
          sent (
              json (
                fields_only (
                  ("success", bool true)
                  ∷ ("id", get "id" category)
                  ∷ ("message", str "分类创建成功")
                  ∷ []))),
          s1,
        ))

abbrev update_found : Option Row → Value → Row → String → Handler
update_found none id body now s = (sent (status_json 404 (error_only "分类不存在")), s)
update_found (some existing) id body now s =
    let s1 =
      (Categories.update id
        (("name", get "name" body)
          ∷ ("icon", or_else (get "icon" body) null)
          ∷ ("sort_order", or_else (get "sort_order" body) (int 0))
          ∷ ("status", nullish (get "status" body) (int 1))
          ∷ [])
        now s).1 in
    (done "分类更新成功", s1)

-- PUT /:id
unfoldable pub put_category : Value → Row → String → Handler
put_category id body now s =
    let (existing, s1) = Categories.find_by_id id now s in update_found existing id body now s1

-- DELETE /:id
unfoldable pub delete_category : Value → String → Handler
delete_category id now s =
    let (used, s1) = exists_by_category_id id now s in
    if used
    then (sent (status_json 400 (error_only "该分类下已有房源，无法删除")), s1)
    else (done "分类删除成功", (Categories.remove id now s1).1)
