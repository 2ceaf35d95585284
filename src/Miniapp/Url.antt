-- ===== src/Miniapp/Url.antt =====
-- miniapp/utils/url.js: the addresses of images. `trim` is that of texts. The origin of the
-- program's address is the same whether the phone can parse addresses or not.
pub mod Laws
use Prim.Native.String.{◌++◌ as str_append}
use jtfp_cloudrun.Base.{
  ℕ, ◌+◌, ◌==◌, leb, String, Bool, true, false, ◌&&◌, ◌||◌, List, [], ◌∷◌, if◌then◌else◌, str_eq,
}
use jtfp_cloudrun.Js.{Value, undefined, null, to_text}
use jtfp_cloudrun.Js.Text.{codes}

-- getApiOrigin
abbrev pub api_origin : String
api_origin = "https://www.jintai.cloud"

abbrev pub placeholder : String
placeholder = "/assets/images/tab-home.png"

unfoldable pub starts : List ℕ → List ℕ → Bool
starts [] cs = true
starts (p ∷ ps) [] = false
starts (p ∷ ps) (c ∷ cs) = c == p && starts ps cs

abbrev pub lower : ℕ → ℕ
lower c = if leb b'A' c && leb c b'Z' then c + 32 else c

-- The same for a prefix in lower case, whatever the case of the text.
unfoldable pub starts_any_case : List ℕ → List ℕ → Bool
starts_any_case [] cs = true
starts_any_case (p ∷ ps) [] = false
starts_any_case (p ∷ ps) (c ∷ cs) = lower c == p && starts_any_case ps cs

-- /^https?:\/\//i
unfoldable pub has_scheme : String → Bool
unfolding starts_any_case
has_scheme url =
    starts_any_case (codes "http://") (codes url) || starts_any_case (codes "https://") (codes url)

-- The address of a text that is not empty.
unfoldable pub absolute : String → String
unfolding starts
absolute url =
    if has_scheme url
    then url
    else if starts (codes "//") (codes url)
    then str_append "https:" url
    else if starts (codes "/") (codes url)
    then str_append api_origin url
    else str_append api_origin (str_append "/" url)

abbrev pub of_text : String → String
of_text url = if str_eq url "" then placeholder else absolute url

-- normalizeImageUrl
unfoldable pub normalize_image_url : (String → String) → Value → String
normalize_image_url trim undefined = placeholder
normalize_image_url trim null = placeholder
normalize_image_url trim v = of_text (trim (to_text v))
