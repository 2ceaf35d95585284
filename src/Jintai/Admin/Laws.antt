-- ===== src/Jintai/Admin/Laws.antt =====
-- Where a navigation ends.
use jtfp_cloudrun.Base.{String, if◌then◌else◌, str_eq}
use jtfp_cloudrun.Jintai.Admin.{Auth, resolved}

-- Where a navigation is to end: at the login without a token, and never there with one.
abbrev pub destination : String → Auth → String
destination path s =
    if str_eq s.token ""
    then "/login"
    else if str_eq (resolved path) "/login"
    then "/properties"
    else resolved path
