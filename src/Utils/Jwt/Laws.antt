-- ===== src/Utils/Jwt/Laws.antt =====
-- What is signed is accepted, and what is accepted was signed.
use Prim.Native.String.{◌++◌ as str_append}
use text.Mathlib.TextLemmas.{append_assoc}
use jtfp_cloudrun.Base.{
  ℕ, ◌+◌, ◌≤◌, String, ◌≡◌, ◌≢◌, refl, sym, ap, ◌∙◌, Bool, true, false, not, ◌&&◌, Option, none,
  some, List, [], ◌∷◌, arith, str_eq, eq_iff, eq_refl, if◌then◌else◌,
}
use jtfp_cloudrun.Base.Int.{pos}
use jtfp_cloudrun.Js.{int, truthy, js_lt, to_number}
use jtfp_cloudrun.Js.Objects.{Row, get, json_copy, HasNot, get-spread-HasNot, get-json_copy_num}
use jtfp_cloudrun.Utils.Jwt.{
  Crypto, replace_all, split, url_unsafe, with_dot, header, base64url, signature, claims, sign_jwt,
  verify_jwt, check_parts, check_expiry,
}
use jtfp_cloudrun.Utils.Jwt.Texts.{
  Lacks, split-with_dot, split-Lacks, IsEncoded, url_unsafe-url_safe, Lacks-url_safe, url_safe-ne,
}

-- An object reads back: its JSON parses to its copy, and the bytes of the text are those that its
-- base64, with or without padding, decodes to.
pub record ReadsBack (c : Crypto) (r : Row) : Type 0 where
  pub encoded : IsEncoded (c.base64 (c.json_text r))
  pub decodes : c.unbase64 (replace_all b'=' "" (c.base64 (c.json_text r))) ≡ c.json_text r
  pub parses : c.json_parse (c.json_text r) ≡ some (json_copy r)

-- What a token is that is accepted.
pub record IsAccepted (c : Crypto) (secret token : String) (now : ℕ) (result : Row) : Type 0 where
  pub h : String
  pub p : String
  pub s : String
  pub more : List String
  pub parts : split b'.' token ≡ h ∷ p ∷ s ∷ more
  pub signed : s ≡ signature c secret (with_dot h p)
  pub parsed : c.json_parse (c.unbase64 (url_unsafe p)) ≡ some result
  pub unexpired : truthy (get "exp" result) && js_lt (get "exp" result) (int now) ≡ false

some_injective {ℓ} : {A : Type ℓ} {x y : A} → some x ≡ some y → x ≡ y
some_injective e = cc

if-none {ℓ} :
    {A : Type ℓ} (b : Bool) (x : Option A) (result : A)
    → (if b then none else x) ≡ some result
    → (b ≡ false) × (x ≡ some result)
if-none true x result e = ground arith
if-none false x result e = (refl, e)

not-false : (b : Bool) → not b ≡ false → b ≡ true
not-false b e = ground arith

pub ne_false : (s : String) → s ≢ "" → str_eq s "" ≡ false
ne_false s h = ground (arith, eq_iff s "", h)

with_dot_assoc : (a b d : String) → with_dot (with_dot a b) d ≡ with_dot a (with_dot b d)
with_dot_assoc a b d =
    append_assoc a (str_append "." b) (str_append "." d)
    ∙ ap (str_append a) (append_assoc "." b (str_append "." d))

split-three :
    (a b d : String)
    → Lacks b'.' a
    → Lacks b'.' b
    → Lacks b'.' d
    → split b'.' (with_dot (with_dot a b) d) ≡ a ∷ b ∷ d ∷ []
split-three a b d h k l =
    rw
      (
        with_dot_assoc a b d,
        split-with_dot a (with_dot b d) h,
        split-with_dot b d k,
        split-Lacks d l,
      )
      refl

check_parts-fresh :
    (c : Crypto) (secret : String) (now : ℕ) (h p : String) {parsed : Option Row}
    → h ≢ ""
    → p ≢ ""
    → signature c secret (with_dot h p) ≢ ""
    → c.json_parse (c.unbase64 (url_unsafe p)) ≡ parsed
    → check_parts c (h ∷ p ∷ signature c secret (with_dot h p) ∷ []) secret now
      ≡ check_expiry c parsed now
check_parts-fresh c secret now h p i j k e =
    let s = signature c secret (with_dot h p) in
    rw (ne_false h i, ne_false p j, ne_false s k, eq_refl s) (ap (λ t. check_expiry c t now) e)

module _ (c : Crypto) (secret : String) (payload : Row) (now expires_in_sec : ℕ) where
  exp-claims :
      HasNot "exp" payload
      → get "exp" (claims c payload now expires_in_sec) ≡ int (now + expires_in_sec)
  unfolding claims
  exp-claims h = get-spread-HasNot "exp" _ payload h ∙ unfold get in refl

  not_expired :
      (later : ℕ)
      → HasNot "exp" payload
      → later ≤ now + expires_in_sec
      → check_expiry c (some (json_copy (claims c payload now expires_in_sec))) later
        ≡ some (json_copy (claims c payload now expires_in_sec))
  unfolding js_lt to_number
  not_expired later h l =
      rw (get-json_copy_num "exp" (pos (now + expires_in_sec)) _ (exp-claims h)) (ground arith)

  -- A token that `signJwt` has made is accepted under the same secret until it expires, and gives
  -- the payload with the times of its issue and its expiry, copied through JSON.
  pub verify_jwt-sign_jwt :
      (later : ℕ)
      → ReadsBack c header
      → ReadsBack c (claims c payload now expires_in_sec)
      → ((t : String) → IsEncoded (c.hmac secret t))
      → HasNot "exp" payload
      → later ≤ now + expires_in_sec
      → verify_jwt c secret (sign_jwt c secret payload now expires_in_sec) later
        ≡ some (json_copy (claims c payload now expires_in_sec))
  unfolding verify_jwt sign_jwt base64url signature
  verify_jwt-sign_jwt later head body sig h l =
      let safe_head = Lacks-url_safe _ head.encoded in
      let safe_body = Lacks-url_safe _ body.encoded in
      let safe_sig = Lacks-url_safe _ (sig _) in
      ap (λ parts. check_parts c parts secret later)
        (split-three _ _ _ safe_head safe_body safe_sig)
      ∙ check_parts-fresh c secret later _ _
          {parsed = some (json_copy (claims c payload now expires_in_sec))}
          (url_safe-ne _ head.encoded) (url_safe-ne _ body.encoded) (url_safe-ne _ (sig _))
          (rw (url_unsafe-url_safe _ body.encoded, body.decodes) body.parses)
      ∙ not_expired later h l

module _ (c : Crypto) (secret : String) where
  check_expiry-some :
      (parsed : Option Row) (now : ℕ) (result : Row)
      → check_expiry c parsed now ≡ some result
      → (parsed ≡ some result)
        × ((truthy (get "exp" result) && js_lt (get "exp" result) (int now)) ≡ false)
  check_expiry-some none now result e = ground arith
  check_expiry-some (some payload) now result e =
      let (unexpired, same) = if-none _ _ result e in
      (same, rw (sym (some_injective same)) unexpired)

  check_parts-accepts :
      (token : String) (parts : List String) (now : ℕ) (result : Row)
      → split b'.' token ≡ parts
      → check_parts c parts secret now ≡ some result
      → IsAccepted c secret token now result
  check_parts-accepts token [] now result q e = ground arith
  check_parts-accepts token (h ∷ []) now result q e = ground arith
  check_parts-accepts token (h ∷ p ∷ []) now result q e = ground arith
  check_parts-accepts token (h ∷ p ∷ s ∷ more) now result q e =
      let (whole, f) = if-none _ _ result e in
      let (same, g) = if-none _ _ result f in
      let (parsed, unexpired) = check_expiry-some _ now result g in
      record {
        h = h;
        p = p;
        s = s;
        more = more;
        parts = q;
        signed = sym ((eq_iff _ s).0 (not-false _ same));
        parsed = parsed;
        unexpired = unexpired;
      }

  -- A token is accepted only when its third part is the signature of its first two under the secret,
  -- when the payload is what its second part decodes and parses to, and when it has not expired.
  pub verify_jwt-accepts :
      (token : String) (now : ℕ) (result : Row)
      → verify_jwt c secret token now ≡ some result
      → IsAccepted c secret token now result
  unfolding verify_jwt
  verify_jwt-accepts token now result e = check_parts-accepts token _ now result refl e
