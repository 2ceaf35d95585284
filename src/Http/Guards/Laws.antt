-- ===== src/Http/Guards/Laws.antt =====
-- The guard of the administration.
use Prim.Native.String.{◌++◌ as str_append}
use text.Mathlib.TextPositions.{starts_with-append, slice-append_right, len-append}
use jtfp_cloudrun.Base.{String, ◌≡◌, ◌≢◌, ◌⊎◌, eq_iff, eq_refl, arith, inl, inr}
use jtfp_cloudrun.Store.State.{Process}
use jtfp_cloudrun.Http.{sent, Handler, status_json, error_only}
use jtfp_cloudrun.Http.Guards.{bearer_token, require_admin_token}

pub bearer_token-append : (token : String) → bearer_token (str_append "Bearer " token) ≡ token
unfolding bearer_token
bearer_token-append token =
    rw (starts_with-append "Bearer " token, len-append "Bearer " token)
      (slice-append_right "Bearer " token)

-- The guard lets through a request whose header is "Bearer " and the configured token.
pub require_admin_token-passes :
    (token : String) (handler : Handler) (s : Process)
    → token ≢ ""
    → require_admin_token token (str_append "Bearer " token) handler s ≡ handler s
unfolding require_admin_token
require_admin_token-passes token handler s h =
    rw (bearer_token-append, eq_refl) (ground (arith, eq_iff token "", h))

-- Where no token is configured, or the header's is another, the answer is 401, the handler does not
-- run, and the process stays as it is.
pub require_admin_token-refuses :
    (token header : String) (handler : Handler) (s : Process)
    → (token ≡ "") ⊎ (bearer_token header ≢ token)
    → require_admin_token token header handler s
      ≡ (sent (status_json 401 (error_only "Unauthorized")), s)
unfolding require_admin_token
require_admin_token-refuses token header handler s (inl h) = rw h
require_admin_token-refuses token header handler s (inr h) =
    ground (arith, eq_iff (bearer_token header) token)
