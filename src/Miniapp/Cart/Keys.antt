-- ===== src/Miniapp/Cart/Keys.antt =====
-- The key of a product and its SKU, and what can be read from it.
use Prim.Native.String.{◌++◌ as str_append}
use jtfp_cloudrun.Base.{
  ℕ, zero, suc, ◌+◌, ◌*◌, ◌-◌, ◌==◌, leb, String, ◌≡◌, refl, sym, ap, ◌∙◌, true, false, ◌&&◌, some,
  List, [], ◌∷◌, ◌++◌, arith, All, if◌then◌else◌, str_eq, eq_iff, eq_refl, Bool-cases, inl, inr,
}
use jtfp_cloudrun.Js.{int, or_else, to_number}
use jtfp_cloudrun.Js.Text.{codes, digits_from, print_ℕ, print_ℤ}
use jtfp_cloudrun.Js.Text.Numerals.{codes-append, digits-print_ℕ}
use jtfp_cloudrun.Miniapp.Cart.{make_key}

-- The key of a product's number and a SKU's, 0 where there is no SKU.
abbrev pub goods_key : ℕ → ℕ → String
goods_key product sku = make_key (int product) (int sku)

pub or_zero : (k : ℕ) → or_else (int k) (int 0) ≡ int k
or_zero zero = refl
or_zero (suc k) = ground arith

goods_key-text : (p k : ℕ) → goods_key p k ≡ str_append (print_ℕ p) (str_append ":" (print_ℕ k))
unfolding make_key to_number print_ℤ
goods_key-text p k = rw (or_zero k) refl

-- What stands before a colon, and behind it.
before : List ℕ → List ℕ
before [] = []
before (c ∷ cs) = let rest = before cs in if c == b':' then [] else c ∷ rest

behind : List ℕ → List ℕ
behind [] = []
behind (c ∷ cs) = let rest = behind cs in if c == b':' then cs else rest

abbrev HasNoColon : List ℕ → Type 0
HasNoColon cs = All (λ c. (c == b':') ≡ false) cs

digits-HasNoColon : (cs : List ℕ) (a m : ℕ) → digits_from a cs ≡ some m → HasNoColon cs
unfolding digits_from
digits-HasNoColon [] a m e = tt
digits-HasNoColon (c ∷ cs) a m e = elim (Bool-cases (leb b'0' c && leb c b'9')) [
  | inl d ↦ (ground (arith, d), digits-HasNoColon cs (a * 10 + (c - b'0')) m (rw d at e))
  | inr d ↦ absurd (let g = rw d at e in cc)
]

before-colon : (xs ys : List ℕ) → HasNoColon xs → before (xs ++ b':' ∷ ys) ≡ xs
unfolding before
before-colon [] ys h = refl
before-colon (x ∷ xs) ys h = rw h.0 (ap (λ zs. x ∷ zs) (before-colon xs ys h.1))

behind-colon : (xs ys : List ℕ) → HasNoColon xs → behind (xs ++ b':' ∷ ys) ≡ ys
unfolding behind
behind-colon [] ys h = refl
behind-colon (x ∷ xs) ys h = rw h.0 (behind-colon xs ys h.1)

codes-goods_key : (p k : ℕ) → codes (goods_key p k) ≡ codes (print_ℕ p) ++ b':' ∷ codes (print_ℕ k)
codes-goods_key p k = rw (goods_key-text, codes-append, codes-append) refl

no_colon : (p : ℕ) → HasNoColon (codes (print_ℕ p))
no_colon p = digits-HasNoColon (codes (print_ℕ p)) 0 p (digits-print_ℕ p)

-- The two numbers are read from the key.
product-goods_key : (p k : ℕ) → digits_from 0 (before (codes (goods_key p k))) ≡ some p
product-goods_key p k =
    rw (codes-goods_key, before-colon (codes (print_ℕ p)) _ (no_colon p)) (digits-print_ℕ p)

sku-goods_key : (p k : ℕ) → digits_from 0 (behind (codes (goods_key p k))) ≡ some k
sku-goods_key p k =
    rw (codes-goods_key, behind-colon (codes (print_ℕ p)) _ (no_colon p)) (digits-print_ℕ k)

some-inj : (a b : ℕ) → some a ≡ some b → a ≡ b
some-inj a b e = cc

goods_key-inj : (p k q l : ℕ) → goods_key p k ≡ goods_key q l → (p ≡ q) × (k ≡ l)
goods_key-inj p k q l e = (
  some-inj p q (
      sym (product-goods_key p k)
      ∙ ap (λ s. digits_from 0 (before (codes s))) e
      ∙ product-goods_key q l),
  some-inj k l
      (sym (sku-goods_key p k) ∙ ap (λ s. digits_from 0 (behind (codes s))) e ∙ sku-goods_key q l),
)

both : (p k q l : ℕ) → (p == q && k == l) ≡ true → (p ≡ q) × (k ≡ l)
both p k q l e = ground arith

-- Two keys are one text exactly if they are of the same product and SKU.
pub str_eq-goods_key : (p k q l : ℕ) → str_eq (goods_key p k) (goods_key q l) ≡ (p == q && k == l)
str_eq-goods_key p k q l = elim (Bool-cases (p == q && k == l)) [
  | inl e ↦ let (same, alike) = both p k q l e in rw (e, same, alike) (eq_refl (goods_key q l))
  | inr e ↦ elim (Bool-cases (str_eq (goods_key p k) (goods_key q l))) [
    | inl f ↦
        let (same, alike) = goods_key-inj p k q l ((eq_iff (goods_key p k) (goods_key q l)).0 f) in
        absurd (ground (arith, e, same, alike))
    | inr f ↦ f ∙ sym e
  ]
]
