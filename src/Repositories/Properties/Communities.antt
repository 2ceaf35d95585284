-- ===== src/Repositories/Properties/Communities.antt =====
-- The names of the communities, of src/storage/repositories/properties.ts. Names are texts, and the
-- order of their code units is taken to be that of their characters.
use jtfp_cloudrun.Base.{String, Bool, false, ◌||◌, List, [], ◌∷◌, ◌++◌, if◌then◌else◌, str_eq}
use jtfp_cloudrun.Base.Sort.{sort}
use jtfp_cloudrun.Js.{truthy, text_of}
use jtfp_cloudrun.Js.Text.{leb_text}
use jtfp_cloudrun.Js.Objects.{Row, get}
use jtfp_cloudrun.Store.Table.{properties}
use jtfp_cloudrun.Store.State.{Process, get_table}

-- names.has(name)
unfoldable pub has_name : String → List String → Bool
has_name name [] = false
has_name name (x ∷ xs) = str_eq x name || has_name name xs

-- names.add(name), on the set's elements in the order of their insertion
unfoldable pub add_name : String → List String → List String
add_name name xs = if has_name name xs then xs else xs ++ name ∷ []

-- The loop over the rows.
unfoldable pub collect_names : List Row → List String → List String
collect_names [] names = names
collect_names (r ∷ rs) names = collect_names rs (
    if truthy (get "community_name" r)
    then add_name (text_of (get "community_name" r)) names
    else names)

-- getCommunityNames
unfoldable pub get_community_names : String → Process → List String × Process
get_community_names now s =
    let (rs, s1) = get_table properties now s in (sort leb_text (collect_names rs []), s1)
