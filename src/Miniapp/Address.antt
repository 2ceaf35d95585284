-- ===== src/Miniapp/Address.antt =====
-- The page of the delivery address, miniapp/pages/address/index.js, which keeps one address in the
-- phone's storage. `trim` is that of texts.
pub mod Laws
use Prim.Native.String.{◌++◌ as str_append}
use jtfp_cloudrun.Base.{
  ℕ, ltb, String, Bool, true, false, not, ◌&&◌, ◌||◌, Option, none, some, List, [], ◌∷◌, length,
  filter, if◌then◌else◌, str_eq,
}
use jtfp_cloudrun.Js.Text.{codes}

pub record Form : Type 0 where
  pub name : String
  pub phone : String
  pub province : String
  pub city : String
  pub district : String
  pub detail : String

-- The address in the storage: the form with its region.
pub record Address : Type 0 where
  pub form : Form
  pub region : String

-- The page's data and the storage.
pub record View : Type 0 where
  pub form : Form
  pub region_value : List String
  pub region_text : String
  pub stored : Option Address

abbrev pub blank : Form
blank = record { name = ""; phone = ""; province = ""; city = ""; district = ""; detail = "" }

abbrev pub is_empty : String → Bool
is_empty s = str_eq s ""

-- `${a} ${b} ${c}`
abbrev pub spaced : String → String → String → String
spaced a b c = str_append a (str_append " " (str_append b (str_append " " c)))

-- texts.join(' ')
unfoldable pub joined : List String → String
joined [] = ""
joined (s ∷ []) = s
joined (s ∷ t ∷ ts) = str_append s (str_append " " (joined (t ∷ ts)))

abbrev pub has_region : Form → Bool
has_region f = not (is_empty f.province) && not (is_empty f.city) && not (is_empty f.district)

-- onLoad, on what the storage has
abbrev pub form_of : Option Address → Form
form_of none = blank
form_of (some a) = a.form

unfoldable pub on_load : Option Address → View
on_load stored =
    let f = form_of stored in
    record {
      form = f;
      region_value = if has_region f then f.province ∷ f.city ∷ f.district ∷ [] else [];
      region_text = if has_region f then spaced f.province f.city f.district else "";
      stored = stored;
    }

pub data Field : Type 0 where
  name_field : Field
  phone_field : Field
  province_field : Field
  city_field : Field
  district_field : Field
  detail_field : Field

abbrev pub set_field : Field → String → Form → Form
set_field name_field s f = record f { name = s }
set_field phone_field s f = record f { phone = s }
set_field province_field s f = record f { province = s }
set_field city_field s f = record f { city = s }
set_field district_field s f = record f { district = s }
set_field detail_field s f = record f { detail = s }

-- onInput
unfoldable pub on_input : Field → String → View → View
on_input field s v = record v { form = set_field field s v.form }

-- a[i] || ''
abbrev pub first : List String → String
first [] = ""
first (s ∷ ss) = s

abbrev pub second : List String → String
second [] = ""
second (s ∷ ss) = first ss

abbrev pub third : List String → String
third [] = ""
third (s ∷ ss) = second ss

abbrev pub filled : List String → List String
filled ss = filter (λ s. not (is_empty s)) ss

-- onRegionChange
unfoldable pub on_region_change : List String → View → View
on_region_change region v = record v {
  form = record v.form { province = first region; city = second region; district = third region };
  region_value = region;
  region_text = joined (filled region);
}

abbrev pub text_or : String → String → String
text_or a b = if is_empty a then b else a

-- chooseWxAddress, on the address that WeChat gives
unfoldable pub choose_wx_address : Form → View → View
choose_wx_address given v =
    let region = filled (given.province ∷ given.city ∷ given.district ∷ []) in
    record v {
      form = record {
        name = text_or given.name v.form.name;
        phone = text_or given.phone v.form.phone;
        province = given.province;
        city = given.city;
        district = given.district;
        detail = text_or given.detail v.form.detail;
      };
      region_value = region;
      region_text = joined region;
    }

-- clear, where the user confirms it
unfoldable pub clear : Bool → View → View
clear false v = v
clear true v = record { form = blank; region_value = []; region_text = ""; stored = none }

pub data Event : Type 0 where
  opens : Event
  types : Field → String → Event
  picks_region : List String → Event
  chooses : Form → Event
  saves : Event
  clears : Bool → Event

module _ (trim : String → String) where
  abbrev pub trimmed : Form → Form
  trimmed f = record {
    name = trim f.name;
    phone = trim f.phone;
    province = trim f.province;
    city = trim f.city;
    district = trim f.district;
    detail = trim f.detail;
  }

  -- The message of save, where it refuses a trimmed form
  unfoldable pub complaint : Form → Option String
  complaint f =
      if is_empty f.name
      then some "请填写收货人"
      else if is_empty f.phone || ltb (length (codes f.phone)) 6
      then some "请填写手机号"
      else if is_empty f.province || is_empty f.city || is_empty f.district
      then some "请填写省市区"
      else if is_empty f.detail
      then some "请填写详细地址"
      else none

  abbrev pub save_form : Option String → Form → View → View
  save_form (some message) f v = v
  save_form none f v = record v {
    stored = some (record { form = f; region = trim (spaced f.province f.city f.district) });
  }

  unfoldable pub save : View → View
  save v = save_form (complaint (trimmed v.form)) (trimmed v.form) v

  unfoldable pub step : Event → View → View
  step opens v = on_load v.stored
  step (types field s) v = on_input field s v
  step (picks_region region) v = on_region_change region v
  step (chooses given) v = choose_wx_address given v
  step saves v = save v
  step (clears confirmed) v = clear confirmed v

  abbrev pub run : List Event → View → View
  run [] v = v
  run (e ∷ es) v = run es (step e v)
