-- ===== src/Miniapp/Url/Laws.antt =====
-- An image's address that is normalized twice.
use Prim.Native.String.{◌++◌ as str_append}
use text.Mathlib.TextLemmas.{append_assoc}
use jtfp_cloudrun.Base.{
  ℕ, String, ◌≡◌, ◌≢◌, refl, eq_iff, Bool, true, false, ◌||◌, List, [], ◌∷◌, arith, if◌then◌else◌,
  str_eq, Bool-cases, inl, inr,
}
use jtfp_cloudrun.Js.{Value, undefined, null, str, to_text}
use jtfp_cloudrun.Js.Text.{codes, print_ℤ}
use jtfp_cloudrun.Js.Text.Numerals.{codes-append}
use jtfp_cloudrun.Miniapp.Url.{
  api_origin, placeholder, starts, starts_any_case, has_scheme, absolute, of_text,
  normalize_image_url,
}

-- `trim` leaves a trimmed text alone, and so it does one with a prefix that has no spaces.
pub record IsTrim (trim : String → String) : Type 0 where
  pub idempotent : (s : String) → trim (trim s) ≡ trim s
  pub prefixed : (p s : String) → trim p ≡ p → trim (str_append p (trim s)) ≡ str_append p (trim s)
  pub scheme : trim "https:" ≡ "https:"
  pub origin : trim api_origin ≡ api_origin
  pub directory : trim (str_append api_origin "/") ≡ str_append api_origin "/"
  pub image : trim placeholder ≡ placeholder

-- A value that names no image.
abbrev pub is_blank : (String → String) → Value → Bool
is_blank trim undefined = true
is_blank trim null = true
is_blank trim v = str_eq (trim (to_text v)) ""

slashes_any_case :
    (cs : List ℕ) → starts (codes "//") cs ≡ true → starts_any_case (codes "//") cs ≡ true
unfolding starts starts_any_case
slashes_any_case [] h = cc
slashes_any_case (c ∷ []) h = ground arith
slashes_any_case (c ∷ d ∷ cs) h = ground arith

or_true : (b : Bool) → (b || true) ≡ true
or_true true = refl
or_true false = refl

has_scheme-origin : (s : String) → has_scheme (str_append api_origin s) ≡ true
unfolding has_scheme starts_any_case
has_scheme-origin s = rw codes-append refl

has_scheme-scheme :
    (s : String) → starts (codes "//") (codes s) ≡ true → has_scheme (str_append "https:" s) ≡ true
unfolding has_scheme starts_any_case
has_scheme-scheme s h = rw (codes-append, slashes_any_case (codes s) h) refl

has_scheme-ne : (u : String) → has_scheme u ≡ true → u ≢ ""
unfolding has_scheme starts_any_case
has_scheme-ne u h e = ground (arith, rw e at h)

-- An address with a scheme is left alone.
module _ (trim : String → String) (t : IsTrim trim) where
  kept : (u : String) → trim u ≡ u → has_scheme u ≡ true → normalize_image_url trim (str u) ≡ u
  unfolding normalize_image_url absolute print_ℤ
  kept u e h = elim (Bool-cases (str_eq u "")) [
    | inl b ↦ absurd (has_scheme-ne u h ((eq_iff u "").0 b))
    | inr b ↦ rw (e, b, h) refl
  ]

  placeholder_twice : normalize_image_url trim (str placeholder) ≡ str_append api_origin placeholder
  unfolding normalize_image_url absolute has_scheme starts starts_any_case print_ℤ
  placeholder_twice = rw t.image refl

  kept_absolute :
      (s : String) → normalize_image_url trim (str (absolute (trim s))) ≡ absolute (trim s)
  unfolding absolute
  kept_absolute s = elim (Bool-cases (has_scheme (trim s))) [
    | inl a ↦ rw a (kept (trim s) (t.idempotent s) a)
    | inr a ↦ elim (Bool-cases (starts (codes "//") (codes (trim s)))) [
      | inl b ↦
          rw (a, b)
            (kept (str_append "https:" (trim s)) (t.prefixed "https:" s t.scheme)
              (has_scheme-scheme (trim s) b))
      | inr b ↦ elim (Bool-cases (starts (codes "/") (codes (trim s)))) [
        | inl c ↦
            rw (a, b, c)
              (kept (str_append api_origin (trim s)) (t.prefixed api_origin s t.origin)
                (has_scheme-origin (trim s)))
        | inr c ↦
            rw (a, b, c)
              (kept (str_append api_origin (str_append "/" (trim s)))
                (rw (← append_assoc api_origin "/" (trim s))
                  (t.prefixed (str_append api_origin "/") s t.directory))
                (has_scheme-origin (str_append "/" (trim s))))
      ]
    ]
  ]

  twice_text :
      (s : String)
      → normalize_image_url trim (str (of_text (trim s)))
        ≡ (if str_eq (trim s) "" then str_append api_origin placeholder else of_text (trim s))
  twice_text s = elim (Bool-cases (str_eq (trim s) "")) [
    | inl e ↦ rw e placeholder_twice
    | inr e ↦ rw e (kept_absolute s)
  ]

  -- An address that is normalized twice, as the cart does with what the product's page has put
  -- into it, is the address that was normalized once; but where there is no image, the
  -- placeholder, a file of the program, becomes an address on the server.
  pub normalize_image_url-twice :
      (v : Value)
      → normalize_image_url trim (str (normalize_image_url trim v)) ≡ (
          if is_blank trim v then str_append api_origin placeholder else normalize_image_url trim v)
  unfolding normalize_image_url print_ℤ
  normalize_image_url-twice undefined = placeholder_twice
  normalize_image_url-twice null = placeholder_twice
  normalize_image_url-twice v = twice_text (to_text v)
