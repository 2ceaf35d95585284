-- ===== src/Store/Ids.antt =====
-- Identifiers in a list of rows: each is a positive number below a bound, and none is used twice.
use jtfp_cloudrun.Base.{
  ap, eq_iff, ℕ, suc, ◌≤◌, ◌<◌, String, ◌≡◌, ◌≢◌, ◌↔◌, ◌∙◌, Bool, true, false, List, [], ◌∷◌, ◌++◌,
  arith, filter, if◌then◌else◌, Bool-cases, inl, inr, All, All-append, All-imp, All-filter,
}
use jtfp_cloudrun.Base.Int.{ℤ, pos, eq_ℤ_iff}
use jtfp_cloudrun.Js.{Value, undefined, null, nan, bool, num, str, strict_eq}
use jtfp_cloudrun.Js.Objects.{Row, get, HasNot, get-put, get-spread-HasNot}
use jtfp_cloudrun.Store.Rows.{new_row, updated_row, update_first, update_rows, remove_first}

pub strict_eq-num : (v : Value) (n : ℤ) → (strict_eq v (num n) ≡ true) ↔ (v ≡ num n)
strict_eq-num (num m) n = ground (arith, eq_ℤ_iff m n)
strict_eq-num undefined n = ground arith
strict_eq-num null n = ground arith
strict_eq-num nan n = ground arith
strict_eq-num (bool true) n = ground arith
strict_eq-num (bool false) n = ground arith
strict_eq-num (str s) n = ground arith

pub strict_eq-str : (v : Value) (s : String) → strict_eq v (str s) ≡ true → v ≡ str s
strict_eq-str (str t) s h = ap str ((eq_iff t s).0 h)
strict_eq-str undefined s h = absurd (cc)
strict_eq-str null s h = absurd (cc)
strict_eq-str nan s h = absurd (cc)
strict_eq-str (bool true) s h = absurd (cc)
strict_eq-str (bool false) s h = absurd (cc)
strict_eq-str (num n) s h = absurd (cc)

-- The row's identifier is a number from 1 to below `n`.
abbrev pub HasIdBelow : ℕ → Row → Type 0
HasIdBelow n r = (i : ℕ) × (get "id" r ≡ num (pos i)) × (1 ≤ i) × (i < n)

-- No two rows have one identifier.
abbrev pub HasDistinctIds : List Row → Type 0
HasDistinctIds [] = Unit
HasDistinctIds (r ∷ rs) = All (λ q. get "id" q ≢ get "id" r) rs × HasDistinctIds rs

pub get-id-new_row : (r : Row) (n : ℕ) (now : String) → get "id" (new_row r n now) ≡ num (pos n)
unfolding new_row
get-id-new_row r n now = simp get-put

pub get-id-updated_row :
    (updates : Row) (now : String) (r : Row)
    → HasNot "id" updates
    → get "id" (updated_row updates now r) ≡ get "id" r
unfolding updated_row
get-id-updated_row updates now r h = simp get-put (get-spread-HasNot "id" r updates h)

HasIdBelow-suc : (n : ℕ) (r : Row) → HasIdBelow n r → HasIdBelow (suc n) r
HasIdBelow-suc n r (i, e, p, q) = (i, e, p, omega arith)

id-ne : (n : ℕ) (q r : Row) → HasIdBelow n q → get "id" r ≡ num (pos n) → get "id" r ≢ get "id" q
id-ne n q r (i, e, p, l) f g = ground arith

pub HasIdBelow-append :
    (n : ℕ) (rs : List Row) (r : Row)
    → 1 ≤ n
    → get "id" r ≡ num (pos n)
    → All (HasIdBelow n) rs
    → All (HasIdBelow (suc n)) (rs ++ r ∷ [])
HasIdBelow-append n rs r p e h =
    All-append (HasIdBelow (suc n)) rs (r ∷ [])
      (All-imp (HasIdBelow n) (HasIdBelow (suc n)) (HasIdBelow-suc n) rs h)
      ((n, e, p, omega arith), tt)

pub HasDistinctIds-append :
    (n : ℕ) (rs : List Row) (r : Row)
    → get "id" r ≡ num (pos n)
    → All (HasIdBelow n) rs
    → HasDistinctIds rs
    → HasDistinctIds (rs ++ r ∷ [])
HasDistinctIds-append n [] r e h d = (tt, tt)
HasDistinctIds-append n (q ∷ rs) r e h d = (
  All-append (λ x. get "id" x ≢ get "id" q) rs (r ∷ []) d.0 (id-ne n q r h.0 e, tt),
  HasDistinctIds-append n rs r e h.1 d.1,
)

pub HasDistinctIds-filter :
    (p : Row → Bool) (rs : List Row) → HasDistinctIds rs → HasDistinctIds (filter p rs)
HasDistinctIds-filter p [] d = tt
HasDistinctIds-filter p (r ∷ rs) d = elim (Bool-cases (p r)) [
  | inl e ↦
      rw e (All-filter (λ q. get "id" q ≢ get "id" r) p rs d.0, HasDistinctIds-filter p rs d.1)
  | inr e ↦ rw e (HasDistinctIds-filter p rs d.1)
]

module _ {κ} (P : Row → Type κ) (p : Row → Bool) where
  pub All-remove_first : (rs : List Row) → All P rs → All P (remove_first p rs)
  unfolding remove_first
  All-remove_first [] h = h
  All-remove_first (r ∷ rs) h = elim (Bool-cases (p r)) [
    | inl e ↦ rw e h.1
    | inr e ↦ rw e (h.0, All-remove_first rs h.1)
  ]

  pub All-update_first :
      (f : Row → Row)
      → ((r : Row) → P r → P (f r))
      → (rs : List Row) → All P rs
      → All P (update_first p f rs)
  unfolding update_first
  All-update_first f k [] h = h
  All-update_first f k (r ∷ rs) h = elim (Bool-cases (p r)) [
    | inl e ↦ rw e (k r h.0, h.1)
    | inr e ↦ rw e (h.0, All-update_first f k rs h.1)
  ]

  pub All-update_rows :
      (f : Row → Row)
      → ((r : Row) → P r → P (f r))
      → (rs : List Row) → All P rs
      → All P (update_rows p f rs)
  unfolding update_rows
  All-update_rows f k [] h = h
  All-update_rows f k (r ∷ rs) h = elim (Bool-cases (p r)) [
    | inl e ↦ rw e (k r h.0, All-update_rows f k rs h.1)
    | inr e ↦ rw e (h.0, All-update_rows f k rs h.1)
  ]

pub HasDistinctIds-remove_first :
    (p : Row → Bool) (rs : List Row) → HasDistinctIds rs → HasDistinctIds (remove_first p rs)
unfolding remove_first
HasDistinctIds-remove_first p [] d = d
HasDistinctIds-remove_first p (r ∷ rs) d = elim (Bool-cases (p r)) [
  | inl e ↦ rw e d.1
  | inr e ↦ rw e (
    All-remove_first (λ q. get "id" q ≢ get "id" r) p rs d.0,
    HasDistinctIds-remove_first p rs d.1,
  )
]

-- A change of rows that keeps their identifiers.
module _ (p : Row → Bool) (f : Row → Row) (same : (r : Row) → get "id" (f r) ≡ get "id" r) where
  pub HasDistinctIds-update_first :
      (rs : List Row) → HasDistinctIds rs → HasDistinctIds (update_first p f rs)
  unfolding update_first
  HasDistinctIds-update_first [] d = d
  HasDistinctIds-update_first (r ∷ rs) d = elim (Bool-cases (p r)) [
    | inl e ↦ rw (e, same r) d
    | inr e ↦ rw e (
      All-update_first (λ q. get "id" q ≢ get "id" r) p f (λ q h. rw same h) rs d.0,
      HasDistinctIds-update_first rs d.1,
    )
  ]

  pub HasDistinctIds-update_rows :
      (rs : List Row) → HasDistinctIds rs → HasDistinctIds (update_rows p f rs)
  unfolding update_rows
  HasDistinctIds-update_rows [] d = d
  HasDistinctIds-update_rows (r ∷ rs) d = (
    rw id-branch (All-update_rows (λ q. get "id" q ≢ get "id" r) p f (λ q h. rw same h) rs d.0),
    HasDistinctIds-update_rows rs d.1,
  )
    where
      id-branch : get "id" (if p r then f r else r) ≡ get "id" r
      id-branch = ground (arith, same r)

  pub HasIdBelow-same : (n : ℕ) (r : Row) → HasIdBelow n r → HasIdBelow n (f r)
  HasIdBelow-same n r (i, e, l, u) = (i, same r ∙ e, l, u)
