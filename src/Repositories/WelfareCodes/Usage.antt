-- ===== src/Repositories/WelfareCodes/Usage.antt =====
-- The uses of a welfare code.
use jtfp_cloudrun.Base.{
  ℕ, suc, ◌+◌, ◌-◌, ◌≤◌, ◌<◌, min, String, ◌≡◌, refl, ◌∙◌, ◌⊎◌, true, false, Option, none, some,
  List, [], ◌∷◌, if◌then◌else◌, arith, inl, inr, find, Bool-cases, length,
}
use jtfp_cloudrun.Base.Int.{◌+ℤ◌}
use jtfp_cloudrun.Js.{Value, str, int, js_le, js_add, to_number}
use jtfp_cloudrun.Js.Objects.{Row, get, put, spread, get-put}
use jtfp_cloudrun.Store.Table.{Table, table_eq, welfare_codes}
use jtfp_cloudrun.Store.State.{Process, rows, next, load_data}
use jtfp_cloudrun.Store.Rows
use jtfp_cloudrun.Store.Rows.{updated_row, update_first, has_id, has}
use jtfp_cloudrun.Store.Views.{rows-load_data}
use jtfp_cloudrun.Store.Changes.{find_one-rows, update-has, rows-update}
use jtfp_cloudrun.Store.Finds.{find-update_own, has-own}
use jtfp_cloudrun.Store.Integrity.{
  IsWellFormed, apply-IsWellFormed, load_data-IsWellFormed, update_row, apply,
}
use jtfp_cloudrun.Repositories.WelfareCodes.{
  has_code, find_by_code, use_code, use_found, is_used_up,
}

-- The code, as the process would find it.
abbrev pub code_at : Value → Process → Option Row
code_at code s = find (has_code code) (rows welfare_codes s)

-- The code has been used `used` times of `total`.
pub record HasUses (wc : Row) (used total : ℕ) : Type 0 where
  pub used_count : get "used_count" wc ≡ int used
  pub total_count : get "total_count" wc ≡ int total

module _ {wc : Row} {used total : ℕ} (h : HasUses wc used total) where
  pub used_up : total ≤ used → is_used_up wc ≡ true
  unfolding js_le to_number
  used_up l = rw (h.used_count, h.total_count) (ground arith)

  not_used_up : used < total → is_used_up wc ≡ false
  unfolding js_le to_number
  not_used_up l = rw (h.used_count, h.total_count) (ground arith)

  one_more : js_add (get "used_count" wc) (int 1) ≡ int (suc used)
  unfolding js_add to_number ◌+ℤ◌
  one_more = rw h.used_count (ground arith)

abbrev pub used_row : Row → ℕ → String → Row
used_row wc n now = put "updated_at" (str now) (put "used_count" (int n) wc)

HasUses-used_row :
    (wc : Row) (used total n : ℕ) (now : String)
    → HasUses wc used total
    → HasUses (used_row wc n now) n total
HasUses-used_row wc used total n now h = record {
  used_count = simp get-put;
  total_count = simp get-put h.total_count;
}

module _ (code : Value) (now : String) where
  use_code-rows :
      (s : Process) → use_code code now s ≡ use_found (code_at code s) now (load_data now s)
  unfolding use_code find_by_code
  use_code-rows s = rw find_one-rows

  set_used :
      (s : Process) (wc : Row) (n : ℕ)
      → IsWellFormed s
      → code_at code s ≡ some wc
      → ((Rows.update welfare_codes (get "id" wc) (("used_count", int n) ∷ []) now s).0 ≡ true)
        × (code_at code
              (Rows.update welfare_codes (get "id" wc) (("used_count", int n) ∷ []) now s).1
            ≡ some (used_row wc n now))
  unfolding table_eq spread updated_row
  set_used s wc n w h = (
    update-has welfare_codes now s _ _
        ∙ has-own (next welfare_codes s) (has_code code) (rows welfare_codes s) wc
            (w.ids welfare_codes).0 h,
    rw rows-update (
        find-update_own (next welfare_codes s) (has_code code)
          (updated_row (("used_count", int n) ∷ []) now) (rows welfare_codes s) wc
          (λ q. simp get-put) (w.ids welfare_codes).0 (w.ids welfare_codes).1 h),
  )

  code_at-load_data : (s : Process) → code_at code (load_data now s) ≡ code_at code s
  code_at-load_data s = rw rows-load_data

  -- In a well-formed process, a code that has been used less than its total is used: the answer is
  -- true, and the code's count is one more, its time that of the update and all else as it was.
  pub use_code-counts :
      (s : Process) (wc : Row) (used total : ℕ)
      → IsWellFormed s
      → code_at code s ≡ some wc
      → HasUses wc used total
      → used < total
      → ((use_code code now s).0 ≡ true)
        × (code_at code (use_code code now s).1 ≡ some (used_row wc (suc used) now))
  use_code-counts s wc used total w h u l =
      rw (use_code-rows, h)
        (rw (not_used_up u l, one_more u)
          (set_used (load_data now s) wc (suc used) (load_data-IsWellFormed now s w)
            (rw code_at-load_data h)))

  -- A code whose uses have reached its total is not used: the answer is false, and every table is
  -- as it was.
  pub use_code-exhausted :
      (s : Process) (wc : Row) (used total : ℕ) (t : Table)
      → code_at code s ≡ some wc
      → HasUses wc used total
      → total ≤ used
      → ((use_code code now s).0 ≡ false) × (rows t (use_code code now s).1 ≡ rows t s)
  use_code-exhausted s wc used total t h u l =
      rw (use_code-rows, h) (rw (used_up u l) (refl, rows-load_data t now s))

  use_found-IsWellFormed :
      (o : Option Row) (s : Process) → IsWellFormed s → IsWellFormed (use_found o now s).1
  unfolding apply
  use_found-IsWellFormed none s w = w
  use_found-IsWellFormed (some wc) s w = elim (Bool-cases (is_used_up wc)) [
    | inl e ↦ rw e w
    | inr e ↦ rw e (
        apply-IsWellFormed
          (update_row welfare_codes (get "id" wc)
            (("used_count", js_add (get "used_count" wc) (int 1)) ∷ []))
          now s (refl, tt) w)
  ]

  pub use_code-IsWellFormed : (s : Process) → IsWellFormed s → IsWellFormed (use_code code now s).1
  use_code-IsWellFormed s w =
      rw use_code-rows
        (use_found-IsWellFormed (code_at code s) (load_data now s) (load_data-IsWellFormed now s w))

-- The uses of one code in turn, each at its time: how many of them are answered with true.
unfoldable pub use_each : Value → List String → Process → ℕ × Process
use_each code [] s = (0, s)
use_each code (now ∷ times) s =
    let (success, s1) = use_code code now s in
    let (n, s2) = use_each code times s1 in ((if success then 1 else 0) + n, s2)

le_or_lt : (a b : ℕ) → (a < b) ⊎ (b ≤ a)
le_or_lt a b = omega arith

-- In a well-formed process, of any number of uses of one code as many succeed as its total leaves,
-- and no more.
pub use_each-eq-min :
    (code : Value) (times : List String) (s : Process) (wc : Row) (used total : ℕ)
    → IsWellFormed s
    → code_at code s ≡ some wc
    → HasUses wc used total
    → (use_each code times s).0 ≡ min (length times) (total - used)
unfolding use_each
use_each-eq-min code [] s wc used total w h u = omega arith
use_each-eq-min code (now ∷ times) s wc used total w h u = elim (le_or_lt used total) [
  | inl left ↦
      let (success, after) = use_code-counts code now s wc used total w h u left in
      let ih =
        use_each-eq-min code times (use_code code now s).1 (used_row wc (suc used) now) (suc used)
          total (use_code-IsWellFormed code now s w) after
          (HasUses-used_row wc used total (suc used) now u) in
      rw success (omega (arith, ih))
  | inr none_left ↦
      let (failure, same) =
        use_code-exhausted code now s wc used total welfare_codes h u none_left in
      let ih =
        use_each-eq-min code times (use_code code now s).1 wc used total
          (use_code-IsWellFormed code now s w) (rw same h) u in
      rw failure (omega (arith, ih))
]
