-- ===== src/Js/Text.antt =====
-- Texts as characters: order by code point, inclusion, and decimal numerals.
pub mod Numerals
use Prim.Native.Char.{code}
use Prim.Native.String.{◌++◌ as str_append}
use jtfp_cloudrun.Base.{
  ℕ, zero, suc, ◌+◌, ◌*◌, ◌-◌, ◌/◌, ◌%◌, String, ◌≡◌, refl, ◌⊎◌, inl, inr, Bool, true, false, ◌&&◌,
  ◌||◌, Option, none, some, List, [], ◌∷◌, if◌then◌else◌, leb, ltb, ◌==◌, arith,
}
use jtfp_cloudrun.Base.Int.{ℤ, pos, negsuc}

abbrev pub codes : String → List ℕ
codes String.[] = []
codes (String.◌∷◌ c s) = code c ∷ codes s

unfoldable pub leb_codes : List ℕ → List ℕ → Bool
leb_codes [] ys = true
leb_codes (x ∷ xs) [] = false
leb_codes (x ∷ xs) (y ∷ ys) = ltb x y || (x == y && leb_codes xs ys)

-- s <= t on texts
unfoldable pub leb_text : String → String → Bool
unfolding leb_codes
leb_text s t = leb_codes (codes s) (codes t)

leb_codes_total : (xs ys : List ℕ) → (leb_codes xs ys ≡ true) ⊎ (leb_codes ys xs ≡ true)
unfolding leb_codes
leb_codes_total [] ys = inl refl
leb_codes_total (x ∷ xs) [] = inr refl
leb_codes_total (x ∷ xs) (y ∷ ys) = ground (arith, leb_codes_total xs ys)

leb_codes_trans :
    (xs ys zs : List ℕ) → leb_codes xs ys ≡ true → leb_codes ys zs ≡ true → leb_codes xs zs ≡ true
unfolding leb_codes
leb_codes_trans [] ys zs p q = refl
leb_codes_trans (x ∷ xs) [] zs p q = absurd (cc)
leb_codes_trans (x ∷ xs) (y ∷ ys) [] p q = absurd (cc)
leb_codes_trans (x ∷ xs) (y ∷ ys) (z ∷ zs) p q = ground (arith, leb_codes_trans xs ys zs)

pub leb_text_total : (s t : String) → (leb_text s t ≡ true) ⊎ (leb_text t s ≡ true)
unfolding leb_text
leb_text_total s t = leb_codes_total (codes s) (codes t)

pub leb_text_trans :
    (s t u : String) → leb_text s t ≡ true → leb_text t u ≡ true → leb_text s u ≡ true
unfolding leb_text
leb_text_trans s t u = leb_codes_trans (codes s) (codes t) (codes u)

has_prefix : List ℕ → List ℕ → Bool
has_prefix [] ys = true
has_prefix (x ∷ xs) [] = false
has_prefix (x ∷ xs) (y ∷ ys) = x == y && has_prefix xs ys

has_infix : List ℕ → List ℕ → Bool
unfolding has_prefix
has_infix p [] = has_prefix p []
has_infix p (y ∷ ys) = has_prefix p (y ∷ ys) || has_infix p ys

-- s.includes(part)
unfoldable pub includes : String → String → Bool
unfolding has_infix
includes s part = has_infix (codes part) (codes s)

unfoldable pub digits_from : ℕ → List ℕ → Option ℕ
digits_from acc [] = some acc
digits_from acc (c ∷ cs) =
    let rest = digits_from (acc * 10 + (c - b'0')) cs in
    if leb b'0' c && leb c b'9' then rest else none

abbrev as_pos : Option ℕ → Option ℤ
as_pos none = none
as_pos (some n) = some (pos n)

-- Number(s) on the texts that the model covers
unfoldable pub decimal : String → Option ℤ
unfolding digits_from
decimal s = as_pos (digits_from 0 (codes s))

digit : ℕ → String
digit n =
    if n == 0
    then "0"
    else if n == 1
    then "1"
    else if n == 2
    then "2"
    else if n == 3
    then "3"
    else if n == 4
    then "4"
    else if n == 5
    then "5"
    else if n == 6
    then "6"
    else if n == 7
    then "7"
    else if n == 8
    then "8"
    else "9"

print_fuel : ℕ → ℕ → String
unfolding digit
print_fuel zero n = digit (n % 10)
print_fuel (suc f) n =
    let rest = print_fuel f (n / 10) in
    if ltb n 10 then digit n else str_append rest (digit (n % 10))

-- String(n)
unfoldable pub print_ℕ : ℕ → String
unfolding print_fuel
print_ℕ n = print_fuel n n

unfoldable pub print_ℤ : ℤ → String
unfolding print_ℕ
print_ℤ (pos n) = print_ℕ n
print_ℤ (negsuc n) = str_append "-" (print_ℕ (suc n))

zeros : ℕ → String → String
zeros zero s = s
zeros (suc n) s = str_append "0" (zeros n s)

count_codes : List ℕ → ℕ
count_codes [] = 0
count_codes (c ∷ cs) = suc (count_codes cs)

-- String(n).padStart(width, '0')
unfoldable pub pad_start : ℕ → ℕ → String
unfolding zeros count_codes print_ℕ
pad_start n width = zeros (width - count_codes (codes (print_ℕ n))) (print_ℕ n)
