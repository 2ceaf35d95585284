-- ===== src/Jintai/Home.antt =====
-- The first page of the mall for properties, the script of jintai-property/h5/src/views/Home.vue, as
-- a state machine: its search, its categories and its list, with the requests under way. What the
-- list component writes into `loading` before it emits `load` is a parameter. Images that load are
-- left out.
pub mod Laws
use jtfp_cloudrun.Base.{
  ℕ, ◌+◌, ◌==◌, leb, ltb, String, Bool, true, false, ◌||◌, Option, none, some, List, [], ◌∷◌, ◌++◌,
  length, if◌then◌else◌,
}
use jtfp_cloudrun.Js.Text.{includes}
use jtfp_cloudrun.Js.Objects.{Row}
use jtfp_cloudrun.Miniapp.OrderList.{call_at, without}

-- A call of fetchData: whether it loads more, and what it has asked for.
pub record Fetch : Type 0 where
  pub more : Bool
  pub page : ℕ
  pub keyword : String
  pub category : Option ℕ

pub record View : Type 0 where
  pub list : List Row
  pub categories : List Row
  pub active : Option ℕ
  pub keyword : String
  pub loading : Bool
  pub refreshing : Bool
  pub finished : Bool
  pub page : ℕ
  pub fetches : List Fetch

abbrev pub blank : View
blank = record {
  list = [];
  categories = [];
  active = none;
  keyword = "";
  loading = false;
  refreshing = false;
  finished = false;
  page = 1;
  fetches = [];
}

-- fetchData, up to its await
unfoldable pub fetch_data : Bool → View → View
fetch_data more v = record v {
  loading = true;
  fetches =
      v.fetches
      ++ record { more = more; page = v.page; keyword = v.keyword; category = v.active } ∷ [];
}

-- fetchData, where the server answers a page of 20 and the total
abbrev pub receive : Option Fetch → ℕ → List Row → ℕ → View → View
receive none i rows total v = v
receive (some f) i rows total v =
    let list = if f.more then v.list ++ rows else rows in
    record v {
      list = list;
      finished = leb total (length list) || ltb (length rows) 20;
      loading = false;
      refreshing = false;
      fetches = without i v.fetches;
    }

abbrev pub receive_error : Option Fetch → ℕ → View → View
receive_error none i v = v
receive_error (some f) i v = record v {
  loading = false;
  refreshing = false;
  fetches = without i v.fetches;
}

-- onLoad
unfoldable pub on_load : View → View
on_load v = if v.finished || v.loading then v else fetch_data true (record v { page = v.page + 1 })

-- onSearch, and onRefresh
unfoldable pub on_search : View → View
on_search v = fetch_data false (record v { page = 1; finished = false; list = [] })

abbrev pub toggled : ℕ → Option ℕ → Option ℕ
toggled id none = some id
toggled id (some active) = if active == id then none else some id

-- onSelectCategory
unfoldable pub on_select_category : ℕ → View → View
on_select_category id v = on_search (record v { active = toggled id v.active })

-- onMounted: the categories arrive as an event of their own.
abbrev pub mounted : View
mounted = fetch_data false blank

-- What happens: the user types, searches, pulls the list down, taps a category or scrolls to the end
-- of the list; the categories arrive; the request at a place is answered or fails.
pub data Event : Type 0 where
  types : String → Event
  searches : Event
  pulls : Event
  taps_category : ℕ → Event
  scrolls : Event
  shows_categories : List Row → Event
  answers : ℕ → List Row → ℕ → Event
  fails : ℕ → Event

module _ (before_load : Bool → Bool) where
  unfoldable pub step : Event → View → View
  step (types text) v = record v { keyword = text }
  step searches v = on_search v
  step pulls v = on_search (record v { refreshing = true })
  step (taps_category id) v = on_select_category id v
  step scrolls v = on_load (record v { loading = before_load v.loading })
  step (shows_categories rows) v = record v { categories = rows }
  step (answers i rows total) v = receive (call_at i v.fetches) i rows total v
  step (fails i) v = receive_error (call_at i v.fetches) i v

  abbrev pub run : List Event → View → View
  run [] v = v
  run (e ∷ es) v = run es (step e v)

-- getCategoryIconClass
unfoldable pub get_category_icon_class : String → String
get_category_icon_class name =
    if includes name "住宅"
    then "residential"
    else if includes name "商业"
    then "commercial"
    else if includes name "学区"
    then "school"
    else if includes name "捡漏"
    then "bargain"
    else "residential"
