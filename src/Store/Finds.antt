-- ===== src/Store/Finds.antt =====
-- A lookup by identifier after a write to the list of rows.
use jtfp_cloudrun.Base.{
  Bool, All, All-find, Bool-cases, List, [], arith, false, find, if◌then◌else◌, inl, inr, none,
  refl, some, subst, sym, true, ℕ, ◌++◌, ◌∙◌, ◌∷◌, ◌≡◌, ◌≢◌,
}
use mathlib.Core.Option
use jtfp_cloudrun.Base.Int.{ℤ, pos}
use jtfp_cloudrun.Js.{num, strict_eq}
use jtfp_cloudrun.Js.Objects.{Row, get}
use jtfp_cloudrun.Store.Rows.{update_first, remove_first, has, has_id}
use jtfp_cloudrun.Store.Ids.{HasIdBelow, HasDistinctIds, strict_eq-num}

pub has_id-eq : (n : ℤ) (r : Row) → has_id (num n) r ≡ true → get "id" r ≡ num n
has_id-eq n r h = (strict_eq-num (get "id" r) n).0 h

eq-has_id : (n : ℤ) (r : Row) → get "id" r ≡ num n → has_id (num n) r ≡ true
eq-has_id n r h = (strict_eq-num (get "id" r) n).1 h

pub not-has_id : (n : ℤ) (r : Row) → get "id" r ≢ num n → has_id (num n) r ≡ false
not-has_id n r h = elim (Bool-cases (has_id (num n) r)) [
  | inl e ↦ absurd (h (has_id-eq n r e))
  | inr e ↦ e
]

fresh_id :
    (n : ℕ) (i : ℤ) (q : Row)
    → HasIdBelow n q
    → get "id" q ≡ num i
    → strict_eq (num (pos n)) (num i) ≡ false
fresh_id n i q (k, e, p, l) f =
    let same : num (pos k) ≡ num i = sym e ∙ f in
    subst (λ v. strict_eq (num (pos n)) v ≡ false) same (ground arith)

-- After an append: the new row under its own identifier, and every other row as it was.
pub find-append :
    (n : ℕ) (i : ℤ) (rs : List Row) (r : Row)
    → All (HasIdBelow n) rs
    → get "id" r ≡ num (pos n)
    → find (has_id (num i)) (rs ++ r ∷ [])
      ≡ (if strict_eq (num (pos n)) (num i) then some r else find (has_id (num i)) rs)
find-append n i [] r h e = rw e (ground arith)
find-append n i (q ∷ rs) r h e = elim (Bool-cases (has_id (num i) q)) [
  | inl t ↦ rw (t, fresh_id n i q h.0 (has_id-eq i q t))
  | inr t ↦ rw t (find-append n i rs r h.1 e)
]

other_id :
    (i j : ℤ) (r : Row)
    → has_id (num j) r ≡ false
    → has_id (num i) r ≡ true
    → strict_eq (num j) (num i) ≡ false
other_id i j r e t =
    let same : strict_eq (num i) (num j) ≡ false = rw (has_id-eq i r t) at e in ground arith

find-ne :
    (i j : ℤ) (r : Row) (rs : List Row)
    → get "id" r ≡ num j
    → All (λ q. get "id" q ≢ get "id" r) rs
    → strict_eq (num j) (num i) ≡ true
    → find (has_id (num i)) rs ≡ none
find-ne i j r [] e h t = refl
find-ne i j r (q ∷ rs) e h t =
    rw (not-has_id i q (λ g. h.0 (g ∙ sym (e ∙ (strict_eq-num (num j) i).0 t))))
      (find-ne i j r rs e h.1 t)

-- After an update: the updated row under its own identifier, and every other row as it was.
pub find-update_first :
    (i j : ℤ) (f : Row → Row) (rs : List Row)
    → ((r : Row) → get "id" (f r) ≡ get "id" r)
    → find (has_id (num i)) (update_first (has_id (num j)) f rs) ≡ (
        if strict_eq (num j) (num i)
        then Option.map f (find (has_id (num i)) rs)
        else find (has_id (num i)) rs)
unfolding update_first
find-update_first i j f [] same = ground arith
find-update_first i j f (r ∷ rs) same = elim (Bool-cases (has_id (num j) r)) [
  | inl e ↦ rw e (rw (same r, has_id-eq j r e) (ground arith))
  | inr e ↦ elim (Bool-cases (has_id (num i) r)) [
    | inl t ↦ rw (e, t) (ground (arith, other_id i j r e t))
    | inr t ↦ rw (e, t) (find-update_first i j f rs same)
  ]
]

-- After a removal: nothing under the removed identifier, and every other row as it was.
pub find-remove_first :
    (i j : ℤ) (rs : List Row)
    → HasDistinctIds rs
    → find (has_id (num i)) (remove_first (has_id (num j)) rs)
      ≡ (if strict_eq (num j) (num i) then none else find (has_id (num i)) rs)
unfolding remove_first
find-remove_first i j [] d = ground arith
find-remove_first i j (r ∷ rs) d = elim (Bool-cases (has_id (num j) r)) [
  | inl e ↦ rw e (rw (has_id-eq j r e) (ground (arith, find-ne i j r rs (has_id-eq j r e) d.0)))
  | inr e ↦ elim (Bool-cases (has_id (num i) r)) [
    | inl t ↦ rw (e, t) (ground (arith, other_id i j r e t))
    | inr t ↦ rw (e, t) (find-remove_first i j rs d.1)
  ]
]

some_inj : {a c : Row} → some a ≡ some c → a ≡ c
some_inj w = cc

has_own_id : (r : Row) (n : ℕ) → HasIdBelow n r → has_id (get "id" r) r ≡ true
has_own_id r n (i, e, p, q) = rw e (ground arith)

not_own_id :
    (q r : Row) (n : ℕ) → HasIdBelow n r → get "id" r ≢ get "id" q → has_id (get "id" r) q ≡ false
not_own_id q r n (i, e, p, l) d = rw e (not-has_id (pos i) q (λ g. d (e ∙ sym g)))

-- A row that a predicate finds, updated under its own identifier: the predicate, which the update
-- does not change, then finds the updated row.
pub find-update_own :
    (n : ℕ) (p : Row → Bool) (f : Row → Row) (rs : List Row) (r : Row)
    → ((q : Row) → p (f q) ≡ p q)
    → All (HasIdBelow n) rs
    → HasDistinctIds rs
    → find p rs ≡ some r
    → find p (update_first (has_id (get "id" r)) f rs) ≡ some (f r)
unfolding update_first
find-update_own n p f [] r k b d e = absurd (cc)
find-update_own n p f (q ∷ rs) r k b d e = elim (Bool-cases (p q)) [
  | inl t ↦ let same : q ≡ r = some_inj (rw t at e) in rw (← same) (rw (has_own_id q n b.0, k q, t))
  | inr t ↦
      let later : find p rs ≡ some r = rw t at e in
      rw
        (
          not_own_id q r n (All-find (HasIdBelow n) p rs r b.1 later)
              (All-find (λ x. get "id" x ≢ get "id" q) p rs r d.0 later),
          t,
        )
        (find-update_own n p f rs r k b.1 d.1 later)
]

-- A row that a predicate finds is found under its own identifier too.
pub has-own :
    (n : ℕ) (p : Row → Bool) (rs : List Row) (r : Row)
    → All (HasIdBelow n) rs
    → find p rs ≡ some r
    → has (has_id (get "id" r)) rs ≡ true
has-own n p [] r b e = absurd (cc)
has-own n p (q ∷ rs) r b e = elim (Bool-cases (p q)) [
  | inl t ↦ let same : some q ≡ some r = rw t at e in own_head same
  | inr t ↦ let later : find p rs ≡ some r = rw t at e in ground (arith, has-own n p rs r b.1 later)
]
  where
    own_head : some q ≡ some r → has (has_id (get "id" r)) (q ∷ rs) ≡ true
    own_head w = let same : q ≡ r = some_inj w in rw (← same) (rw (has_own_id q n b.0))
