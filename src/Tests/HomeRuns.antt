-- ===== src/Tests/HomeRuns.antt =====
-- The mall for properties: a user who scrolls, and one who searches twice.
use jtfp_cloudrun.Base.{◌≡◌, refl, true, Bool, List, [], ◌∷◌, All}
use jtfp_cloudrun.Js.{int}
use jtfp_cloudrun.Js.Objects.{Row}
use jtfp_cloudrun.Jintai.Home.{
  Event, answers, scrolls, types, searches, mounted, run, step, fetch_data, on_search,
}
use jtfp_cloudrun.Jintai.Home.Laws.{IsFirst, run-IsFirst}

abbrev flat : Row
flat = ("id", int 1) ∷ []

abbrev villa : Row
villa = ("id", int 2) ∷ []

-- The list component writes true.
abbrev raised : Bool → Bool
raised b = true

abbrev scrolling : List Event
scrolling = answers 0 (flat ∷ villa ∷ []) 40 ∷ scrolls ∷ scrolls ∷ types "别墅" ∷ searches ∷ []

run-IsFirst_example : All IsFirst (run raised scrolling mounted).fetches
run-IsFirst_example = run-IsFirst raised (λ b. refl) scrolling

-- The answer to the first search comes last: the list shows it under the second search's word.
abbrev crossing : List Event
crossing =
    answers 0 [] 0
    ∷ types "公寓"
    ∷ searches
    ∷ types "别墅"
    ∷ searches
    ∷ answers 1 (villa ∷ []) 1
    ∷ answers 0 (flat ∷ []) 1
    ∷ []

crossing_keyword : (run raised crossing mounted).keyword ≡ "别墅"
unfolding step fetch_data on_search
crossing_keyword = refl

crossing_list : (run raised crossing mounted).list ≡ flat ∷ []
unfolding step fetch_data on_search
crossing_list = refl
