-- ===== src/Utils/Jwt/Texts.antt =====
-- Splitting what was joined, and restoring what was made safe.
use Prim.Native.Char.{Char, code}
use Prim.Native.String.{◌++◌ as str_append}
use text.Mathlib.TextLemmas.{nil-append, cons-append, cons≢nil}
use text.Mathlib.TextEquality.{Char-path}
use jtfp_cloudrun.Base.{
  ℕ, ◌==◌, String, ◌≡◌, ◌≢◌, refl, sym, ap, ap₂, ◌∙◌, true, false, [], ◌∷◌, Bool-cases, inl, inr,
  if◌then◌else◌, ==_iff,
}
use jtfp_cloudrun.Utils.Jwt.{replace_all, split, url_safe, url_unsafe, with_dot}

-- The character does not occur in the text.
abbrev pub Lacks : ℕ → String → Type 0
Lacks c String.[] = Unit
Lacks c (String.◌∷◌ x s) = ((code x == c) ≡ false) × Lacks c s

pub split-with_dot : (a b : String) → Lacks b'.' a → split b'.' (with_dot a b) ≡ a ∷ split b'.' b
unfolding split
split-with_dot String.[] b h = rw (nil-append, cons-append, nil-append) refl
split-with_dot (String.◌∷◌ x a) b h = rw cons-append (rw h.0 (rw (split-with_dot a b h.1) refl))

pub split-Lacks : (a : String) → Lacks b'.' a → split b'.' a ≡ a ∷ []
unfolding split
split-Lacks String.[] h = refl
split-Lacks (String.◌∷◌ x a) h = rw h.0 (rw (split-Lacks a h.1) refl)

char_of_code : (x z : Char) (a : ℕ) → code x ≡ a → (code z == a) ≡ true → x ≡ z
char_of_code x z a e h = Char-path x z (e ∙ sym ((==_iff (code z) a).0 h))

-- What is replaced by a character that did not occur comes back.
pub replace_all-back :
    (a b : ℕ) (x y : Char) (s : String)
    → code x ≡ a
    → code y ≡ b
    → Lacks b s
    → replace_all b (String.◌∷◌ x String.[]) (replace_all a (String.◌∷◌ y String.[]) s) ≡ s
unfolding replace_all
replace_all-back a b x y String.[] e f h = refl
replace_all-back a b x y (String.◌∷◌ z s) e f h = elim (Bool-cases (code z == a)) [
  | inl t ↦
      rw (t, cons-append, nil-append)
        (rw ((==_iff (code y) b).1 f, cons-append, nil-append)
          (ap₂ String.◌∷◌ (char_of_code x z a e t) (replace_all-back a b x y s e f h.1)))
  | inr t ↦ rw (t, h.0) (ap (String.◌∷◌ z) (replace_all-back a b x y s e f h.1))
]

abbrev pick : ℕ → Char → Char → Char
pick a x z = if code z == a then x else z

replace_all-cons :
    (a : ℕ) (x z : Char) (s : String)
    → replace_all a (String.◌∷◌ x String.[]) (String.◌∷◌ z s)
      ≡ String.◌∷◌ (pick a x z) (replace_all a (String.◌∷◌ x String.[]) s)
unfolding replace_all
replace_all-cons a x z s = elim (Bool-cases (code z == a)) [
  | inl t ↦ rw (t, cons-append, nil-append)
  | inr t ↦ rw t
]

-- Replacements of two characters by two others commute.
module _ (a b : ℕ) (x y : Char) (other : (a == b) ≡ false) (not_b : (code x == b) ≡ false)
    (not_a : (code y == a) ≡ false) where
  pick_comm : (z : Char) → pick a x (pick b y z) ≡ pick b y (pick a x z)
  pick_comm z = elim (Bool-cases (code z == a)) [
    | inl t ↦ rw (t, not_same t) (rw (t, not_b))
    | inr t ↦ elim (Bool-cases (code z == b)) [
      | inl u ↦ rw (t, u) (rw not_a)
      | inr u ↦ rw (t, u) (rw t)
    ]
  ]
    where
      not_same : (code z == a) ≡ true → (code z == b) ≡ false
      not_same t = rw ((==_iff (code z) a).0 t) other

  pub replace_all_comm :
      (s : String)
      → replace_all a (String.◌∷◌ x String.[]) (replace_all b (String.◌∷◌ y String.[]) s)
        ≡ replace_all b (String.◌∷◌ y String.[]) (replace_all a (String.◌∷◌ x String.[]) s)
  replace_all_comm String.[] = unfold replace_all in refl
  replace_all_comm (String.◌∷◌ z s) =
      rw
        (
          replace_all-cons b y z s,
          replace_all-cons a x z s,
          replace_all-cons a x (pick b y z) _,
          replace_all-cons b y (pick a x z) _,
        )
        (ap₂ String.◌∷◌ (pick_comm z) (replace_all_comm s))

Lacks-append : (c : ℕ) (s t : String) → Lacks c s → Lacks c t → Lacks c (str_append s t)
Lacks-append c String.[] t h k = rw nil-append k
Lacks-append c (String.◌∷◌ x s) t h k = rw cons-append (h.0, Lacks-append c s t h.1 k)

pub Lacks-replace_all :
    (c a : ℕ) (by s : String) → Lacks c by → Lacks c s → Lacks c (replace_all a by s)
unfolding replace_all
Lacks-replace_all c a by String.[] k h = tt
Lacks-replace_all c a by (String.◌∷◌ z s) k h = elim (Bool-cases (code z == a)) [
  | inl t ↦ rw t (Lacks-append c by (replace_all a by s) k (Lacks-replace_all c a by s k h.1))
  | inr t ↦ rw t (h.0, Lacks-replace_all c a by s k h.1)
]

-- A text of the alphabet of base64, with a first character that is not padding.
pub record IsEncoded (t : String) : Type 0 where
  pub dotless : Lacks b'.' t
  pub hyphenless : Lacks b'-' t
  pub lineless : Lacks b'_' t
  pub first : (x : Char) × (s : String) × (t ≡ String.◌∷◌ x s) × ((code x == b'=') ≡ false)

-- What was made safe for a URL is restored, but for its padding.
pub url_unsafe-url_safe :
    (t : String) → IsEncoded t → url_unsafe (url_safe t) ≡ replace_all b'=' "" t
unfolding url_unsafe url_safe
url_unsafe-url_safe t h =
    let lacks = λ (c : ℕ) (k : Lacks c t). Lacks-replace_all c b'=' "" t tt k in
    rw
      (replace_all_comm b'-' b'/' "+" "_" refl refl refl
        (replace_all b'+' "-" (replace_all b'=' "" t)))
      (rw
        (replace_all-back b'+' b'-' "+" "-" (replace_all b'=' "" t) refl refl
          (lacks b'-' h.hyphenless))
        (replace_all-back b'/' b'_' "/" "_" (replace_all b'=' "" t) refl refl
          (lacks b'_' h.lineless)))

pub Lacks-url_safe : (t : String) → IsEncoded t → Lacks b'.' (url_safe t)
unfolding url_safe
Lacks-url_safe t h =
    Lacks-replace_all b'.' b'/' "_" _ (refl, tt)
      (Lacks-replace_all b'.' b'+' "-" _ (refl, tt) (Lacks-replace_all b'.' b'=' "" t tt h.dotless))

replace_all-miss :
    (x : Char) (s : String)
    → (code x == b'=') ≡ false
    → replace_all b'=' "" (String.◌∷◌ x s) ≡ String.◌∷◌ x (replace_all b'=' "" s)
unfolding replace_all
replace_all-miss x s k = rw k

pub url_safe-ne : (t : String) → IsEncoded t → url_safe t ≢ ""
unfolding url_safe
url_safe-ne t h =
    let (x, s, e, k) = h.first in
    rw (e, replace_all-miss x s k, replace_all-cons b'+' "-" x _, replace_all-cons b'/' "_" _ _)
      cons≢nil
