-- ===== src/Base/Sort.antt =====
-- Array.prototype.sort: stable, by a test `leq a b` for "the comparator gives 0 or less".
use mathlib.Core.Path.{◌≡◌}
use mathlib.Core.Logic.{◌⊎◌, inl, inr}
use mathlib.Core.Bool.{Bool, true, false}
use mathlib.Core.List.{List, [], ◌∷◌, Perm}
use mathlib.Core.List.Perm
use jtfp_cloudrun.Base.Tests.{if◌then◌else◌, Bool-cases}
use jtfp_cloudrun.Base.Lists.{All, All-imp}

module _ {ℓ} {A : Type ℓ} (leq : A → A → Bool) where
  unfoldable pub insert_sorted : A → List A → List A
  insert_sorted x [] = x ∷ []
  insert_sorted x (y ∷ ys) =
      let rest = insert_sorted x ys in if leq x y then x ∷ y ∷ ys else y ∷ rest

  unfoldable pub sort : List A → List A
  unfolding insert_sorted
  sort [] = []
  sort (x ∷ xs) = insert_sorted x (sort xs)

  insert_sorted-perm : (x : A) (xs : List A) → Perm (insert_sorted x xs) (x ∷ xs)
  unfolding insert_sorted
  insert_sorted-perm x [] = Perm.rfl
  insert_sorted-perm x (y ∷ ys) = elim (Bool-cases (leq x y)) [
    | inl e ↦ rw e Perm.rfl
    | inr e ↦ rw e (Perm.trans (Perm.cons y (insert_sorted-perm x ys)) (Perm.swap x y ys))
  ]

  -- Sorting rearranges.
  pub sort-perm : (xs : List A) → Perm (sort xs) xs
  unfolding sort
  sort-perm [] = Perm.rfl
  sort-perm (x ∷ xs) = Perm.trans (insert_sorted-perm x (sort xs)) (Perm.cons x (sort-perm xs))

module _ {ℓ κ} {A : Type ℓ} (leq : A → A → Bool) (P : A → Type κ) where
  pub insert_sorted-All : (x : A) (xs : List A) → P x → All P xs → All P (insert_sorted leq x xs)
  unfolding insert_sorted
  insert_sorted-All x [] p h = (p, tt)
  insert_sorted-All x (y ∷ ys) p h = elim (Bool-cases (leq x y)) [
    | inl e ↦ rw e (p, h)
    | inr e ↦ rw e (h.0, insert_sorted-All x ys p h.1)
  ]

  pub sort-All : (xs : List A) → All P xs → All P (sort leq xs)
  unfolding sort
  sort-All [] h = h
  sort-All (x ∷ xs) h = insert_sorted-All x (sort leq xs) h.0 (sort-All xs h.1)

module _ {ℓ} {A : Type ℓ} (leq : A → A → Bool) where
  -- Every earlier element is `leq` every later one.
  abbrev pub IsSorted : List A → Type 0
  IsSorted [] = Unit
  IsSorted (x ∷ xs) = All (λ y. leq x y ≡ true) xs × IsSorted xs

  module _ (total : (a b : A) → (leq a b ≡ true) ⊎ (leq b a ≡ true))
      (trans : (a b c : A) → leq a b ≡ true → leq b c ≡ true → leq a c ≡ true) where
    flip : (a b : A) → leq a b ≡ false → leq b a ≡ true
    flip a b h = elim (total a b) [ inl p ↦ absurd (cc) | inr q ↦ q ]

    insert_sorted-IsSorted : (x : A) (xs : List A) → IsSorted xs → IsSorted (insert_sorted leq x xs)
    unfolding insert_sorted
    insert_sorted-IsSorted x [] h = (tt, tt)
    insert_sorted-IsSorted x (y ∷ ys) h = elim (Bool-cases (leq x y)) [
      | inl e ↦ rw e (
        (e, All-imp (λ z. leq y z ≡ true) (λ z. leq x z ≡ true) (λ z p. trans x y z e p) ys h.0),
        h,
      )
      | inr e ↦ rw e (
        insert_sorted-All leq (λ z. leq y z ≡ true) x ys (flip x y e) h.0,
        insert_sorted-IsSorted x ys h.1,
      )
    ]

    pub sort-IsSorted : (xs : List A) → IsSorted (sort leq xs)
    unfolding sort
    sort-IsSorted [] = tt
    sort-IsSorted (x ∷ xs) = insert_sorted-IsSorted x (sort leq xs) (sort-IsSorted xs)
