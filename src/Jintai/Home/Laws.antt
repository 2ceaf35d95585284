-- ===== src/Jintai/Home/Laws.antt =====
-- What the list can ask for, and which search it shows.
use jtfp_cloudrun.Base.{
  ℕ, zero, suc, ◌≡◌, refl, Bool, true, false, ◌||◌, Option, none, some, List, [], ◌∷◌, ◌++◌, All,
}
use jtfp_cloudrun.Js.Objects.{Row}
use jtfp_cloudrun.Miniapp.OrderList.{without}
use jtfp_cloudrun.Jintai.Home.{
  Fetch, View, mounted, fetch_data, receive, receive_error, on_load, on_search, on_select_category,
  Event, types, searches, pulls, taps_category, scrolls, shows_categories, answers, fails, step,
  run,
}

-- A request for the first page of a new list
abbrev pub IsFirst : Fetch → Type 0
IsFirst f = (f.more ≡ false) × (f.page ≡ 1)

abbrev IsFlat : View → Type 0
IsFlat v = All IsFirst v.fetches

append-IsFirst :
    (fs : List Fetch) (f : Fetch) → All IsFirst fs → IsFirst f → All IsFirst (fs ++ f ∷ [])
append-IsFirst [] f h first = (first, tt)
append-IsFirst (g ∷ fs) f h first = (h.0, append-IsFirst fs f h.1 first)

without-IsFirst : (i : ℕ) (fs : List Fetch) → All IsFirst fs → All IsFirst (without i fs)
without-IsFirst i [] h = h
without-IsFirst zero (f ∷ fs) h = h.1
without-IsFirst (suc i) (f ∷ fs) h = (h.0, without-IsFirst i fs h.1)

search-IsFlat : (v : View) → IsFlat v → IsFlat (on_search v)
unfolding on_search fetch_data
search-IsFlat v h = append-IsFirst v.fetches _ h (refl, refl)

or-true : (a b : Bool) → b ≡ true → (a || b) ≡ true
or-true true b e = refl
or-true false b e = e

on_load-IsFlat : (v : View) → v.loading ≡ true → IsFlat v → IsFlat (on_load v)
unfolding on_load
on_load-IsFlat v e h = rw (or-true v.finished v.loading e) h

receive-IsFlat :
    (f : Option Fetch) (i : ℕ) (rows : List Row) (total : ℕ) (v : View)
    → IsFlat v
    → IsFlat (receive f i rows total v)
receive-IsFlat none i rows total v h = h
receive-IsFlat (some f) i rows total v h = without-IsFirst i v.fetches h

error-IsFlat : (f : Option Fetch) (i : ℕ) (v : View) → IsFlat v → IsFlat (receive_error f i v)
error-IsFlat none i v h = h
error-IsFlat (some f) i v h = without-IsFirst i v.fetches h

module _ (before_load : Bool → Bool) (raises : (b : Bool) → before_load b ≡ true) where
  step-IsFlat : (e : Event) (v : View) → IsFlat v → IsFlat (step before_load e v)
  unfolding step on_select_category
  step-IsFlat (types text) v h = h
  step-IsFlat searches v h = search-IsFlat v h
  step-IsFlat pulls v h = search-IsFlat _ h
  step-IsFlat (taps_category id) v h = search-IsFlat _ h
  step-IsFlat scrolls v h =
      on_load-IsFlat (record v { loading = before_load v.loading }) (raises v.loading) h
  step-IsFlat (shows_categories rows) v h = h
  step-IsFlat (answers i rows total) v h = receive-IsFlat _ i rows total v h
  step-IsFlat (fails i) v h = error-IsFlat _ i v h

  run-IsFlat : (es : List Event) (v : View) → IsFlat v → IsFlat (run before_load es v)
  run-IsFlat [] v h = h
  run-IsFlat (e ∷ es) v h = run-IsFlat es (step before_load e v) (step-IsFlat e v h)

  -- Where the list component raises `loading` before it emits `load`, as it documents: whatever the
  -- user does and however far they scroll, every request that is ever under way asks for page 1 of a
  -- new list. The properties behind the first page are never asked for.
  pub run-IsFirst : (es : List Event) → All IsFirst (run before_load es mounted).fetches
  unfolding fetch_data
  run-IsFirst es = run-IsFlat es mounted ((refl, refl), tt)
