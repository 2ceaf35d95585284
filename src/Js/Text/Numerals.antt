-- ===== src/Js/Text/Numerals.antt =====
-- The numeral of a number, read back.
use Prim.Native.Char.{code}
use Prim.Native.String.{◌++◌ as str_append}
use text.Mathlib.TextLemmas.{nil-append, cons-append}
use jtfp_cloudrun.Base.{
  ℕ, zero, suc, ◌+◌, ◌*◌, ◌-◌, ◌/◌, ◌%◌, ◌≤◌, ◌<◌, String, ◌≡◌, refl, ap, ◌∙◌, some, List, [], ◌∷◌,
  ◌++◌, arith, ltb, Bool-cases, inl, inr,
}
use jtfp_cloudrun.Base.Int.{pos}
use jtfp_cloudrun.Js.Text.{codes, digits_from, digit, print_fuel, print_ℕ, decimal}

pub codes-append : (s t : String) → codes (str_append s t) ≡ codes s ++ codes t
codes-append String.[] t = rw nil-append refl
codes-append (String.◌∷◌ c s) t = rw cons-append (ap (◌∷◌ (code c)) (codes-append s t))

digits_from-append :
    (cs : List ℕ) (a m d : ℕ)
    → d < 10
    → digits_from a cs ≡ some m
    → digits_from a (cs ++ (b'0' + d) ∷ []) ≡ some (m * 10 + d)
unfolding digits_from
digits_from-append [] a m d h e = ground arith
digits_from-append (c ∷ cs) a m d h e =
    ground (arith, digits_from-append cs (a * 10 + (c - 48)) m d h)

codes-digit : (n : ℕ) → n < 10 → codes (digit n) ≡ (b'0' + n) ∷ []
unfolding digit
codes-digit zero h = refl
codes-digit (suc zero) h = refl
codes-digit (suc (suc zero)) h = refl
codes-digit (suc (suc (suc zero))) h = refl
codes-digit (suc (suc (suc (suc zero)))) h = refl
codes-digit (suc (suc (suc (suc (suc zero))))) h = refl
codes-digit (suc (suc (suc (suc (suc (suc zero)))))) h = refl
codes-digit (suc (suc (suc (suc (suc (suc (suc zero))))))) h = refl
codes-digit (suc (suc (suc (suc (suc (suc (suc (suc zero)))))))) h = refl
codes-digit (suc (suc (suc (suc (suc (suc (suc (suc (suc zero))))))))) h = refl
codes-digit (suc (suc (suc (suc (suc (suc (suc (suc (suc (suc n)))))))))) h = absurd (omega arith)

print_fuel_lem : (f n : ℕ) → n ≤ f → digits_from 0 (codes (print_fuel f n)) ≡ some n
unfolding print_fuel digits_from
print_fuel_lem zero n h = rw (codes-digit (n % 10) (omega arith)) (ground arith)
print_fuel_lem (suc f) n h = elim (Bool-cases (ltb n 10)) [
  | inl e ↦ rw (e, codes-digit n (ground arith)) (ground arith)
  | inr e ↦
      rw (e, codes-append, codes-digit (n % 10) (omega arith))
        (digits_from-append (codes (print_fuel f (n / 10))) 0 (n / 10) (n % 10) (omega arith)
            (print_fuel_lem f (n / 10) (ground arith))
          ∙ ap some (omega arith))
]

pub digits-print_ℕ : (n : ℕ) → digits_from 0 (codes (print_ℕ n)) ≡ some n
unfolding print_ℕ
digits-print_ℕ n = print_fuel_lem n n (omega arith)

pub decimal-print_ℕ : (n : ℕ) → decimal (print_ℕ n) ≡ some (pos n)
unfolding decimal print_ℕ
decimal-print_ℕ n = rw (print_fuel_lem n n (omega arith))
