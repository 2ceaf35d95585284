-- ===== src/Store/Machine/Idle.antt =====
-- Writes that find nothing to write.
use jtfp_cloudrun.Base.{
  String, ◌≡◌, refl, ap, ◌∙◌, Bool, true, false, not, Option-cases, List, [], ◌∷◌, filter, length,
  ltb, ◌-◌, ◌≤◌, arith, if◌then◌else◌, Bool-cases, inl, inr,
}
use jtfp_cloudrun.Js.Objects.{Row}
use jtfp_cloudrun.Store.Table.{Table, table_eq, table_eq→eq}
use jtfp_cloudrun.Store.State.{Process, rows, next, load_data, mark_dirty, state_ops}
use jtfp_cloudrun.Store.Rows.{row_ops, remove_where}
use jtfp_cloudrun.Store.Views.{get_table-rows}
use jtfp_cloudrun.Store.Changes.{rows-remove_where, next-remove_where}
use jtfp_cloudrun.Store.Integrity.{
  Write, apply, insert_row, update_row, update_matching, remove_row, remove_matching,
}
use jtfp_cloudrun.Store.Transaction.Laws.{is_loaded}

pub load_data-loaded : (now : String) (s : Process) → is_loaded s ≡ true → load_data now s ≡ s
unfolding load_data
load_data-loaded now s h = elim (Option-cases s.cache) [
  | inl e ↦ absurd (ground (arith, e))
  | inr (d, e) ↦ rw e refl
]

-- What a write leaves alone, if it leaves the data unflagged.
unfoldable pub IsSame : Process → Process → Type 0
IsSame s k = (k.file ≡ s.file) × ((u : Table) → (rows u k ≡ rows u s) × (next u k ≡ next u s))

length-filter : (p : Row → Bool) (rs : List Row) → length (filter p rs) ≤ length rs
length-filter p [] = omega arith
length-filter p (r ∷ rs) = elim (Bool-cases (p r)) [
  | inl e ↦ rw e (omega (arith, length-filter p rs))
  | inr e ↦ rw e (omega (arith, length-filter p rs))
]

filter-whole :
    (p : Row → Bool) (rs : List Row) → length rs ≤ length (filter p rs) → filter p rs ≡ rs
filter-whole p [] h = refl
filter-whole p (r ∷ rs) h = elim (Bool-cases (p r)) [
  | inl e ↦ rw e (ap (λ xs. r ∷ xs) (filter-whole p rs (let k = rw e at h in omega (arith, k))))
  | inr e ↦ absurd (let k = rw e at h in omega (arith, k, length-filter p rs))
]

marked : (b : Bool) (k : Process) → (if b then mark_dirty k else k).dirty ≡ false → b ≡ false
unfolding mark_dirty
marked true k e = e
marked false k e = refl

if-same :
    (b : Bool) (xs ys zs : List Row) → (b ≡ true → xs ≡ zs) → ys ≡ zs → (if b then xs else ys) ≡ zs
if-same true xs ys zs p q = p refl
if-same false xs ys zs p q = q

module _ (t : Table) (p : Row → Bool) (now : String) (s : Process) where
  nothing_removed :
      (remove_where t p now s).1.dirty ≡ false → filter (λ r. not (p r)) (rows t s) ≡ rows t s
  unfolding remove_where
  nothing_removed e =
      let none_left =
        marked (ltb 0 (length (rows t s) - length (filter (λ r. not (p r)) (rows t s)))) _
          (rw get_table-rows at e) in
      filter-whole (λ r. not (p r)) (rows t s) (ground (arith, none_left))

  file-remove_where : is_loaded s ≡ true → (remove_where t p now s).1.file ≡ s.file
  unfolding state_ops remove_where
  file-remove_where l = ground arith

  remove_where-IsSame :
      is_loaded s ≡ true
      → (remove_where t p now s).1.dirty ≡ false
      → IsSame s (remove_where t p now s).1
  unfolding IsSame
  remove_where-IsSame l e = (
    file-remove_where l,
    λ u. (
      rw rows-remove_where (
          if-same (table_eq t u) _ _ _
            (λ q. nothing_removed e ∙ ap (λ v. rows v s) (table_eq→eq t u q)) refl),
      next-remove_where t u now s p,
    ),
  )

pub apply-flags :
    (w : Write) (now : String) (s : Process)
    → is_loaded s ≡ true
    → (s.dirty ≡ true → s.timer ≡ true)
    → (is_loaded (apply w now s) ≡ true)
      × ((apply w now s).dirty ≡ true → (apply w now s).timer ≡ true)
unfolding apply state_ops row_ops
apply-flags (insert_row t r) now s l h = ground arith
apply-flags (update_row t id r) now s l h = ground arith
apply-flags (update_matching t p r) now s l h = ground arith
apply-flags (remove_row t id) now s l h = ground arith
apply-flags (remove_matching t p) now s l h = ground arith

pub apply-IsSame :
    (w : Write) (now : String) (s : Process)
    → is_loaded s ≡ true
    → (apply w now s).dirty ≡ false
    → IsSame s (apply w now s)
unfolding apply IsSame row_ops state_ops
apply-IsSame (insert_row t r) now s l e = absurd (ground (arith, e))
apply-IsSame (update_row t id r) now s l e = (ground arith, λ u. (ground arith, ground arith))
apply-IsSame (update_matching t p r) now s l e = (ground arith, λ u. (ground arith, ground arith))
apply-IsSame (remove_row t id) now s l e = (ground arith, λ u. (ground arith, ground arith))
apply-IsSame (remove_matching t p) now s l e = remove_where-IsSame t p now s l e

-- No write clears the flag.
pub apply-dirty :
    (w : Write) (now : String) (s : Process)
    → is_loaded s ≡ true
    → s.dirty ≡ true
    → (apply w now s).dirty ≡ true
unfolding apply state_ops row_ops
apply-dirty (insert_row t r) now s l h = ground arith
apply-dirty (update_row t id r) now s l h = ground arith
apply-dirty (update_matching t p r) now s l h = ground arith
apply-dirty (remove_row t id) now s l h = ground arith
apply-dirty (remove_matching t p) now s l h = ground arith
