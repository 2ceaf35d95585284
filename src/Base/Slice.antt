-- ===== src/Base/Slice.antt =====
-- Array.prototype.slice with signed bounds: a negative bound counts from the end, and each is
-- clamped to the array.
use Prim.Native.Nat.{ℕ, zero, suc, ◌≤◌, ◌-◌, ◌+◌, min}
use mathlib.Core.Path.{◌≡◌}
use mathlib.Core.List.{List, [], ◌∷◌, ◌++◌}
use mathlib.Core.Path.{refl, sym, ap, ◌∙◌}
use native.Mathlib.Nat.{zero-add, suc-add}
use native.Mathlib.Omega.{arith}
use jtfp_cloudrun.Base.Lists.{length, take, drop, length-drop}
use jtfp_cloudrun.Base.Int.{ℤ, pos, negsuc}

abbrev pub clamp_index : ℕ → ℤ → ℕ
clamp_index len (pos i) = min i len
clamp_index len (negsuc i) = len - (i + 1)

module _ {ℓ} {A : Type ℓ} where
  unfoldable pub slice : ℤ → ℤ → List A → List A
  slice start end xs =
      let from : ℕ = clamp_index (length xs) start in
      let to : ℕ = clamp_index (length xs) end in take (to - from) (drop from xs)

  drop-nil : (n : ℕ) → ◌≡◌ {A = List A} (drop n []) []
  drop-nil zero = refl
  drop-nil (suc n) = refl

  drop-clamp : (xs : List A) (i b : ℕ) → b ≡ min i (length xs) → drop b xs ≡ drop i xs
  drop-clamp [] i b e = drop-nil b ∙ sym (drop-nil i)
  drop-clamp (x ∷ xs) zero zero e = refl
  drop-clamp (x ∷ xs) zero (suc b) e = absurd (omega arith)
  drop-clamp (x ∷ xs) (suc i) zero e = absurd (omega arith)
  drop-clamp (x ∷ xs) (suc i) (suc b) e = drop-clamp xs i b (omega arith)

  take-clamp : (xs : List A) (n a : ℕ) → a ≡ min n (length xs) → take a xs ≡ take n xs
  take-clamp [] zero zero e = refl
  take-clamp [] zero (suc a) e = refl
  take-clamp [] (suc n) zero e = refl
  take-clamp [] (suc n) (suc a) e = refl
  take-clamp (x ∷ xs) zero zero e = refl
  take-clamp (x ∷ xs) zero (suc a) e = absurd (omega arith)
  take-clamp (x ∷ xs) (suc n) zero e = absurd (omega arith)
  take-clamp (x ∷ xs) (suc n) (suc a) e = ap (◌∷◌ x) (take-clamp xs n a (omega arith))

  -- A slice between bounds that are not negative is a take of a drop.
  pub slice-pos : (i n : ℕ) (xs : List A) → slice (pos i) (pos (i + n)) xs ≡ take n (drop i xs)
  unfolding slice
  slice-pos i n xs = rw (drop-clamp xs i (min i (length xs)) refl) (
      take-clamp (drop i xs) n (min (i + n) (length xs) - min i (length xs))
        (omega (arith, length-drop i xs)))

  take-nil : (n : ℕ) → ◌≡◌ {A = List A} (take n []) []
  take-nil zero = refl
  take-nil (suc n) = refl

  pub take-add : (m n : ℕ) (xs : List A) → take m xs ++ take n (drop m xs) ≡ take (m + n) xs
  take-add zero n xs = rw zero-add
  take-add (suc m) n [] = take-nil n ∙ sym (take-nil (suc m + n))
  take-add (suc m) n (x ∷ xs) = rw suc-add (ap (◌∷◌ x) (take-add m n xs))

  pub take_all : (n : ℕ) (xs : List A) → length xs ≤ n → take n xs ≡ xs
  take_all zero [] h = refl
  take_all (suc n) [] h = refl
  take_all zero (x ∷ xs) h = absurd (omega arith)
  take_all (suc n) (x ∷ xs) h = ap (◌∷◌ x) (take_all n xs (omega arith))
