-- ===== src/Tests/PhoneRuns.antt =====
-- The mini-program: a login that a late 401 ends, and an address that is saved.
use jtfp_cloudrun.Base.{String, ◌≡◌, refl, true, false, none, List, [], ◌∷◌}
use jtfp_cloudrun.Js.{str, int}
use jtfp_cloudrun.Js.Objects.{Row, get}
use jtfp_cloudrun.Miniapp.Session as Session
use jtfp_cloudrun.Miniapp.Session.{
  Phone, ensures, gets_code, login_answers, sends, answers, relaunches, on_launch, logout,
  ensure_login, keep_login, request_done, settles, signed_out,
}
use jtfp_cloudrun.Miniapp.Session.Laws.{run-restored}
use jtfp_cloudrun.Miniapp.Address as Address
use jtfp_cloudrun.Miniapp.Address.{
  on_load, types, picks_region, saves, opens, clears, name_field, phone_field, detail_field,
}
use jtfp_cloudrun.Miniapp.Address.Laws.{IsShown, run-IsShown}

abbrev plain : String → String
plain s = s

abbrev new_phone : Phone
new_phone = record { token = str ""; user = str "" }

abbrev ticket : Row
ticket = ("token", str "t1") ∷ ("user", int 7) ∷ []

abbrev first_day : List Session.Event
first_day =
    ensures
    ∷ gets_code 0 "wx"
    ∷ login_answers 0 200 ticket
    ∷ sends true
    ∷ sends true
    ∷ answers 0 200
    ∷ relaunches
    ∷ []

run-restored_example :
    (on_launch (Session.run first_day (on_launch new_phone)).phone).session
    ≡ (Session.run first_day (on_launch new_phone)).session
unfolding get
run-restored_example =
    run-restored first_day new_phone
      (refl, (refl, ((λ _. refl), (refl, (refl, (refl, (refl, tt)))))))

-- Two requests are under way with one token: the 401 of the first ends the login, a new login
-- succeeds, and the 401 of the second ends that too.
abbrev late : List Session.Event
late =
    ensures
    ∷ gets_code 0 "wx"
    ∷ login_answers 0 200 ticket
    ∷ sends true
    ∷ sends true
    ∷ answers 0 401
    ∷ ensures
    ∷ gets_code 1 "wx"
    ∷ login_answers 1 200 (("token", str "t2") ∷ ("user", int 7) ∷ [])
    ∷ answers 0 401
    ∷ []

late_401 : (Session.run late (on_launch new_phone)).session ≡ signed_out
unfolding get Session.step on_launch ensure_login keep_login request_done settles logout
late_401 = refl

abbrev filling : List Address.Event
filling =
    saves
    ∷ types name_field "王"
    ∷ types phone_field "13800000000"
    ∷ picks_region ("广东省" ∷ "深圳市" ∷ "南山区" ∷ [])
    ∷ types detail_field "1"
    ∷ saves
    ∷ clears false
    ∷ opens
    ∷ []

run-IsShown_example : IsShown plain (Address.run plain filling (on_load none)).stored
unfolding on_load
run-IsShown_example = run-IsShown plain filling (on_load none) refl
