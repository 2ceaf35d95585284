-- ===== src/Tests/AdminRuns.antt =====
-- The pages of the administrators of properties: a navigation after a token has expired.
use jtfp_cloudrun.Base.{◌≡◌, refl, []}
use jtfp_cloudrun.Jintai.Admin.{Auth, open_store, set_token, on_response, failure, clear_token}
use jtfp_cloudrun.Jintai.Admin.Laws.{destination}

abbrev nobody : Auth
nobody = open_store (record { token = ""; username = "" })

-- Somebody who had a token, until a 401 came back.
abbrev expired : Auth
expired = (on_response "/JTFP/admin/categories" (failure 401 []) (set_token "t" "admin" nobody)).1

expired_at_login : destination "/categories" expired ≡ "/login"
unfolding on_response open_store set_token clear_token
expired_at_login = refl
