-- ===== src/Miniapp/Address/Laws.antt =====
-- What the storage can hold as the address, and what the page shows of it.
use jtfp_cloudrun.Base.{
  ℕ, ltb, String, ◌≡◌, refl, Bool, true, false, ◌||◌, ◌≤◌, Option, none, some, List, [], ◌∷◌,
  length, arith, if◌then◌else◌,
}
use jtfp_cloudrun.Js.Text.{codes}
use jtfp_cloudrun.Miniapp.Address.{
  Form, Address, View, is_empty, spaced, has_region, on_load, on_input, on_region_change,
  choose_wx_address, clear, Event, opens, types, picks_region, chooses, saves, clears, complaint,
  save_form, save, step, run,
}

-- A form with a name, a phone number of at least six digits, a region and an address in it.
pub record IsFilled (f : Form) : Type 0 where
  name : is_empty f.name ≡ false
  phone : 6 ≤ length (codes f.phone)
  region : has_region f ≡ true
  detail : is_empty f.detail ≡ false

if-none :
    (b : Bool) (m : String) (r : Option String)
    → (if b then some m else r) ≡ none
    → (b ≡ false) × (r ≡ none)
if-none true m r e = cc
if-none false m r e = (refl, e)

or-false : (a b : Bool) → (a || b) ≡ false → (a ≡ false) × (b ≡ false)
or-false true b e = cc
or-false false b e = (refl, e)

at_least : (m n : ℕ) → ltb n m ≡ false → m ≤ n
at_least m n e = ground arith

has_region-filled :
    (f : Form)
    → (is_empty f.province || is_empty f.city || is_empty f.district) ≡ false
    → has_region f ≡ true
has_region-filled f e =
    let p = or-false (is_empty f.province || is_empty f.city) _ e in
    let q = or-false (is_empty f.province) _ p.0 in rw (q.0, q.1, p.1) refl

complaint-IsFilled : (trim : String → String) (f : Form) → complaint trim f ≡ none → IsFilled f
unfolding complaint
complaint-IsFilled trim f e =
    let a = if-none (is_empty f.name) _ _ e in
    let b = if-none (is_empty f.phone || ltb (length (codes f.phone)) 6) _ _ a.1 in
    let c = if-none (is_empty f.province || is_empty f.city || is_empty f.district) _ _ b.1 in
    let d = if-none (is_empty f.detail) _ _ c.1 in
    record {
      name = a.0;
      phone = at_least 6 _ (or-false (is_empty f.phone) _ b.0).1;
      region = has_region-filled f c.0;
      detail = d.0;
    }

module _ (trim : String → String) where
  -- A stored address is filled, its region is the text of its parts, and the page that opens shows
  -- the form as it is stored, and its region.
  abbrev pub IsShown : Option Address → Type 0
  IsShown none = true ≡ true
  IsShown (some a) =
      IsFilled a.form
      × (a.region ≡ trim (spaced a.form.province a.form.city a.form.district))
      × ((on_load (some a)).form ≡ a.form)
      × ((on_load (some a)).region_text ≡ spaced a.form.province a.form.city a.form.district)

  save_form-IsShown :
      (c : Option String) (f : Form) (v : View)
      → complaint trim f ≡ c
      → IsShown v.stored
      → IsShown (save_form trim c f v).stored
  unfolding on_load
  save_form-IsShown (some m) f v e h = h
  save_form-IsShown none f v e h =
      let filled = complaint-IsFilled trim f e in (filled, refl, refl, rw filled.region refl)

  clear-IsShown : (b : Bool) (v : View) → IsShown v.stored → IsShown (clear b v).stored
  unfolding clear
  clear-IsShown true v h = refl
  clear-IsShown false v h = h

  step-IsShown : (e : Event) (v : View) → IsShown v.stored → IsShown (step trim e v).stored
  unfolding step save on_input on_region_change choose_wx_address on_load
  step-IsShown opens v h = h
  step-IsShown (types field s) v h = h
  step-IsShown (picks_region region) v h = h
  step-IsShown (chooses given) v h = h
  step-IsShown saves v h = save_form-IsShown _ _ v refl h
  step-IsShown (clears b) v h = clear-IsShown b v h

  -- Whatever the user types, picks, saves and clears, where the storage had none or such an address:
  -- an address in
  -- the storage has a name, a phone number of six characters or more, a full region and a detail,
  -- its region is the text of the three parts, trimmed, and the page that opens shows it again.
  pub run-IsShown : (es : List Event) (v : View) → IsShown v.stored → IsShown (run trim es v).stored
  run-IsShown [] v h = h
  run-IsShown (e ∷ es) v h = run-IsShown es (step trim e v) (step-IsShown e v h)
