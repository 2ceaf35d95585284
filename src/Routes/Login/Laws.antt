-- ===== src/Routes/Login/Laws.antt =====
-- The token of a login, and the guard of the routes that need a user.
use Prim.Native.String.{◌++◌ as str_append}
use jtfp_cloudrun.Base.{String}
