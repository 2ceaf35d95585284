-- ===== src/Store/Refinement.antt =====
-- What the file store promises: for each table a partial map from identifiers to rows and a counter.
-- The order of the rows, the cache, the file and the timers are forgotten.
use mathlib.Core.Option
use jtfp_cloudrun.Base.{
  ℕ, suc, ◌==◌, String, ◌≡◌, ◌≢◌, refl, sym, ap, ap₂, fun_ext, ◌∙◌, Bool, true, false, not, Option,
  none, some, List, [], ◌∷◌, arith, if◌then◌else◌, find, filter, Bool-cases, inl, inr, All,
}
use jtfp_cloudrun.Base.Int.{pos}
use jtfp_cloudrun.Js.{Value, undefined, null, nan, bool, str, int, num, strict_eq}
use jtfp_cloudrun.Js.Objects.{Row, get}
use jtfp_cloudrun.Store.Table.{Table, table_eq, table_eq→eq}
use jtfp_cloudrun.Store.State.{Process, rows, next}
use jtfp_cloudrun.Store.Rows.{
  new_row, updated_row, update_first, update_rows, remove_first, has_id, has,
}
use jtfp_cloudrun.Store.Views.{rows-insert, next-insert}
use jtfp_cloudrun.Store.Changes.{
  update_rows-none, rows-update, next-update, rows-remove, next-remove, rows-remove_where,
  next-remove_where, rows-update_where, next-update_where,
}
use jtfp_cloudrun.Store.Ids.{
  HasDistinctIds, get-id-new_row, get-id-updated_row, strict_eq-num, strict_eq-str,
}
use jtfp_cloudrun.Store.Finds.{find-append, not-has_id, has_id-eq}
use jtfp_cloudrun.Store.Integrity.{
  IsWellFormed, Write, insert_row, update_row, update_matching, remove_row, remove_matching, apply,
  run, KeepsIds, apply-IsWellFormed,
}

-- The abstract store.
pub record Spec : Type 0 where
  pub stored : Table → ℕ → Option Row
  pub counter : Table → ℕ

abbrev pub keep_if : (Row → Bool) → Option Row → Option Row
keep_if q none = none
keep_if q (some r) = if q r then some r else none

-- A change of what one table stores under each identifier.
abbrev pub on_table :
    Table → (ℕ → Option Row → Option Row) → (Table → ℕ → Option Row) → Table → ℕ → Option Row
on_table t f m u i = if table_eq t u then f i (m u i) else m u i

abbrev pub update_if : (Row → Bool) → (Row → Row) → Row → Row
update_if p f r = if p r then f r else r

-- The writes of the abstract store, each in one step.
unfoldable pub spec_step : Write → String → Spec → Spec
spec_step (insert_row t r) now a = record {
  stored =
      on_table t (λ i m. if a.counter t == i then some (new_row r (a.counter t) now) else m)
        a.stored;
  counter = λ u. if table_eq t u then suc (a.counter t) else a.counter u;
}
spec_step (update_row t id r) now a = record a {
  stored = on_table t (λ i. Option.map (update_if (has_id id) (updated_row r now))) a.stored;
}
spec_step (update_matching t p r) now a = record a {
  stored = on_table t (λ i. Option.map (update_if p (updated_row r now))) a.stored;
}
spec_step (remove_row t id) now a = record a {
  stored = on_table t (λ i. keep_if (λ r. not (has_id id r))) a.stored;
}
spec_step (remove_matching t p) now a = record a {
  stored = on_table t (λ i. keep_if (λ r. not (p r))) a.stored;
}

unfoldable pub spec_run : List (String × Write) → Spec → Spec
spec_run [] a = a
spec_run ((now, w) ∷ ws) a = spec_run ws (spec_step w now a)

-- What a process stores, seen from outside.
unfoldable pub view : Process → Spec
view s = record { stored = λ t i. find (has_id (int i)) (rows t s); counter = λ t. next t s }

find-update_rows :
    (i : ℕ) (p : Row → Bool) (f : Row → Row) (rs : List Row)
    → ((r : Row) → get "id" (f r) ≡ get "id" r)
    → find (has_id (int i)) (update_rows p f rs)
      ≡ Option.map (update_if p f) (find (has_id (int i)) rs)
unfolding update_rows
find-update_rows i p f [] same = refl
find-update_rows i p f (r ∷ rs) same = ground (arith, same r, find-update_rows i p f rs same)

find-absent :
    (i : ℕ) (q : Row → Bool) (r : Row) (rs : List Row)
    → has_id (int i) r ≡ true
    → All (λ x. get "id" x ≢ get "id" r) rs
    → find (has_id (int i)) (filter q rs) ≡ none
find-absent i q r [] e h = refl
find-absent i q r (x ∷ rs) e h = elim (Bool-cases (q x)) [
  | inl k ↦
      rw (k, not-has_id (pos i) x (λ g. h.0 (g ∙ sym (has_id-eq (pos i) r e))))
        (find-absent i q r rs e h.1)
  | inr k ↦ rw k (find-absent i q r rs e h.1)
]

find-filter :
    (i : ℕ) (q : Row → Bool) (rs : List Row)
    → HasDistinctIds rs
    → find (has_id (int i)) (filter q rs) ≡ keep_if q (find (has_id (int i)) rs)
find-filter i q [] d = refl
find-filter i q (r ∷ rs) d = elim (Bool-cases (q r)) [
  | inl k ↦ elim (Bool-cases (has_id (int i) r)) [
    | inl e ↦ rw (k, e) (rw k)
    | inr e ↦ rw (k, e) (find-filter i q rs d.1)
  ]
  | inr k ↦ elim (Bool-cases (has_id (int i) r)) [
    | inl e ↦ rw (k, e) (rw k (find-absent i q r rs e d.0))
    | inr e ↦ rw (k, e) (find-filter i q rs d.1)
  ]
]

strict_eq-eq : (v w : Value) → strict_eq v w ≡ true → v ≡ w
strict_eq-eq v (num n) h = (strict_eq-num v n).0 h
strict_eq-eq v (str s) h = strict_eq-str v s h
strict_eq-eq v undefined h = ground arith
strict_eq-eq v null h = ground arith
strict_eq-eq v nan h = ground arith
strict_eq-eq v (bool b) h = ground arith

-- Where identifiers are distinct, the first row with one is the only one.
no_more :
    (id : Value) (r : Row) (rs : List Row)
    → has_id id r ≡ true
    → All (λ x. get "id" x ≢ get "id" r) rs
    → has (has_id id) rs ≡ false
no_more id r [] e h = refl
no_more id r (x ∷ rs) e h = elim (Bool-cases (has_id id x)) [
  | inl k ↦ absurd (h.0 (strict_eq-eq (get "id" x) id k ∙ sym (strict_eq-eq (get "id" r) id e)))
  | inr k ↦ rw k (no_more id r rs e h.1)
]

filter-none : (p : Row → Bool) (rs : List Row) → has p rs ≡ false → filter (λ r. not (p r)) rs ≡ rs
filter-none p [] h = refl
filter-none p (r ∷ rs) h = ground (arith, filter-none p rs)

update_first-eq :
    (id : Value) (f : Row → Row) (rs : List Row)
    → HasDistinctIds rs
    → update_first (has_id id) f rs ≡ update_rows (has_id id) f rs
unfolding update_first update_rows
update_first-eq id f [] d = refl
update_first-eq id f (r ∷ rs) d = elim (Bool-cases (has_id id r)) [
  | inl e ↦ rw e (ap (◌∷◌ (f r)) (sym (update_rows-none (has_id id) f rs (no_more id r rs e d.0))))
  | inr e ↦ rw e (ap (◌∷◌ r) (update_first-eq id f rs d.1))
]

remove_first-eq :
    (id : Value) (rs : List Row)
    → HasDistinctIds rs
    → remove_first (has_id id) rs ≡ filter (λ r. not (has_id id r)) rs
unfolding remove_first
remove_first-eq id [] d = refl
remove_first-eq id (r ∷ rs) d = elim (Bool-cases (has_id id r)) [
  | inl e ↦ rw e (sym (filter-none (has_id id) rs (no_more id r rs e d.0)))
  | inr e ↦ rw e (ap (◌∷◌ r) (remove_first-eq id rs d.1))
]

-- A write to one table, seen at every table.
at_table :
    (t u : Table) (i : ℕ) (s : Process) (rs : List Row) (f : Option Row → Option Row)
    → find (has_id (int i)) rs ≡ f (find (has_id (int i)) (rows t s))
    → find (has_id (int i)) (if table_eq t u then rs else rows u s) ≡ (
        if table_eq t u
        then f (find (has_id (int i)) (rows u s))
        else find (has_id (int i)) (rows u s))
at_table t u i s rs f h = elim (Bool-cases (table_eq t u)) [
  | inl e ↦ rw (e, ← table_eq→eq t u e) h
  | inr e ↦ rw e
]

module _ (now : String) (s : Process) (wf : IsWellFormed s) (u : Table) (i : ℕ) where
  stored-step :
      (w : Write)
      → KeepsIds w
      → (view (apply w now s)).stored u i ≡ (spec_step w now (view s)).stored u i
  unfolding view apply spec_step
  stored-step (insert_row t r) k = rw rows-insert (
      at_table t u i s _ (λ m. if next t s == i then some (new_row r (next t s) now) else m)
        (find-append (next t s) (pos i) (rows t s) (new_row r (next t s) now) (wf.ids t).0
            (get-id-new_row r (next t s) now)
          ∙ ground arith))
  stored-step (update_row t id r) k = rw rows-update (
      at_table t u i s _ (Option.map (update_if (has_id id) (updated_row r now))) (
        rw (update_first-eq id (updated_row r now) (rows t s) (wf.ids t).1) (
          find-update_rows i (has_id id) (updated_row r now) (rows t s)
            (λ q. get-id-updated_row r now q k))))
  stored-step (update_matching t p r) k = rw rows-update_where (
      at_table t u i s _ (Option.map (update_if p (updated_row r now)))
        (find-update_rows i p (updated_row r now) (rows t s) (λ q. get-id-updated_row r now q k)))
  stored-step (remove_row t id) k = rw rows-remove (
      at_table t u i s _ (keep_if (λ r. not (has_id id r))) (
        rw (remove_first-eq id (rows t s) (wf.ids t).1)
          (find-filter i (λ r. not (has_id id r)) (rows t s) (wf.ids t).1)))
  stored-step (remove_matching t p) k = rw rows-remove_where (
      at_table t u i s _ (keep_if (λ r. not (p r)))
        (find-filter i (λ r. not (p r)) (rows t s) (wf.ids t).1))

counter-step :
    (w : Write) (now : String) (s : Process) (u : Table)
    → (view (apply w now s)).counter u ≡ (spec_step w now (view s)).counter u
unfolding view apply spec_step
counter-step (insert_row t r) now s u = next-insert t u now s r
counter-step (update_row t id r) now s u = next-update t u now s id r
counter-step (update_matching t p r) now s u = next-update_where t u now s p r
counter-step (remove_row t id) now s u = next-remove t u now s id
counter-step (remove_matching t p) now s u = next-remove_where t u now s p

-- In a well-formed process, a write that keeps the identifiers does to the process, seen from
-- outside, what the abstract store does in one step.
pub apply-spec_step :
    (w : Write) (now : String) (s : Process)
    → KeepsIds w
    → IsWellFormed s
    → view (apply w now s) ≡ spec_step w now (view s)
apply-spec_step w now s k wf =
    ap₂ (λ (m : Table → ℕ → Option Row) (n : Table → ℕ). record { stored = m; counter = n })
      (fun_ext λ t. fun_ext λ i. stored-step now s wf t i w k) (fun_ext λ t. counter-step w now s t)

-- From a well-formed process, any sequence of inserts, updates and removals of which no update
-- writes an identifier does to the process, seen from outside, what it does to the abstract store:
-- a map from identifiers to rows, and a counter, for each table.
pub run-spec_run :
    (ws : List (String × Write)) (s : Process)
    → All (λ w. KeepsIds w.1) ws
    → IsWellFormed s
    → view (run ws s) ≡ spec_run ws (view s)
unfolding run spec_run
run-spec_run [] s k wf = refl
run-spec_run ((now, w) ∷ ws) s k wf =
    run-spec_run ws (apply w now s) k.1 (apply-IsWellFormed w now s k.0 wf)
    ∙ ap (spec_run ws) (apply-spec_step w now s k.0 wf)
