-- ===== src/Tests/TokenRuns.antt =====
-- Tokens over a small cipher: a text and its base64 differ by one character in front.
use Prim.Native.String.{◌++◌ as str_append}
use jtfp_cloudrun.Base.{String, ◌≡◌, refl, some, [], ◌∷◌, arith, if◌then◌else◌, str_eq}
use jtfp_cloudrun.Js.{str, int, text_of, js_lt}
use jtfp_cloudrun.Js.Objects.{Row, get, put, spread, json_copy}
use jtfp_cloudrun.Js.Text.{print_ℤ}
use jtfp_cloudrun.Utils.Jwt.{
  Crypto, replace_all, split, url_safe, url_unsafe, header, base64url, signature, claims, sign_jwt,
  verify_jwt,
}
use jtfp_cloudrun.Utils.Jwt.Texts.{IsEncoded}
use jtfp_cloudrun.Utils.Jwt.Laws.{ReadsBack, IsAccepted, verify_jwt-sign_jwt, verify_jwt-accepts}
use jtfp_cloudrun.Routes.Login.{mini_payload, week}

abbrev behind_first : String → String
behind_first String.[] = String.[]
behind_first (String.◌∷◌ c s) = s

abbrev user : Row
user = ("id", int 7) ∷ []

abbrev payload : Row
payload = ("sub", str "7") ∷ ("openid", str "o7") ∷ ("provider", str "wechat_mini") ∷ []

-- The claims of a token that is issued at 1000.
abbrev claims_7 : Row
claims_7 =
    ("iat", int 1000)
    ∷ ("exp", int 605800)
    ∷ ("sub", str "7")
    ∷ ("openid", str "o7")
    ∷ ("provider", str "wechat_mini")
    ∷ []

abbrev cipher : Crypto
cipher = record {
  base64 = λ s. str_append "e" s;
  unbase64 = behind_first;
  hmac = λ secret s. str_append "s" secret;
  json_text = λ r. if str_eq (text_of (get "alg" r)) "HS256" then "h" else "p";
  json_parse = λ t. if str_eq t "h" then some (json_copy header) else some (json_copy claims_7);
}

all : Unit {0}
unfolding get put spread json_copy claims replace_all url_safe url_unsafe split base64url signature
    sign_jwt verify_jwt print_ℤ js_lt
all = tt

header-ReadsBack : ReadsBack cipher header
unfolding all
header-ReadsBack = record {
  encoded = record {
    dotless = (refl, (refl, tt));
    hyphenless = (refl, (refl, tt));
    lineless = (refl, (refl, tt));
    first = ("e", "h", refl, refl);
  };
  decodes = refl;
  parses = refl;
}

claims-ReadsBack : ReadsBack cipher (claims cipher (mini_payload user (str "o7")) 1000 week)
unfolding all
claims-ReadsBack = record {
  encoded = record {
    dotless = (refl, (refl, tt));
    hyphenless = (refl, (refl, tt));
    lineless = (refl, (refl, tt));
    first = ("e", "p", refl, refl);
  };
  decodes = refl;
  parses = refl;
}

hmac-IsEncoded : (t : String) → IsEncoded (cipher.hmac "k" t)
hmac-IsEncoded t = record {
  dotless = (refl, (refl, tt));
  hyphenless = (refl, (refl, tt));
  lineless = (refl, (refl, tt));
  first = ("s", "k", refl, refl);
}

verify_jwt-sign_jwt_example :
    verify_jwt cipher "k" (sign_jwt cipher "k" (mini_payload user (str "o7")) 1000 week) 2000
    ≡ some (json_copy (claims cipher (mini_payload user (str "o7")) 1000 week))
verify_jwt-sign_jwt_example =
    verify_jwt-sign_jwt cipher "k" (mini_payload user (str "o7")) 1000 week 2000 header-ReadsBack
      claims-ReadsBack hmac-IsEncoded (refl, (refl, (refl, tt))) (omega arith)

verify_jwt-accepts_example : IsAccepted cipher "k" "eh.ep.sk" 2000 (json_copy claims_7)
unfolding all
verify_jwt-accepts_example = verify_jwt-accepts cipher "k" "eh.ep.sk" 2000 (json_copy claims_7) refl
