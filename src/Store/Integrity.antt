-- ===== src/Store/Integrity.antt =====
-- The identifiers of the whole store, under any sequence of writes.
pub mod Lookups
use jtfp_cloudrun.Base.{
  ℕ, suc, ◌+◌, ◌≤◌, ◌<◌, String, ◌≡◌, refl, Bool, true, false, not, Option, none, some, List, [],
  ◌∷◌, arith, if◌then◌else◌, ◌++◌, filter, ◌⊎◌, Bool-cases, inl, inr, All,
}
use jtfp_cloudrun.Js.{Value}
use jtfp_cloudrun.Js.Objects.{Row, HasNot}
use jtfp_cloudrun.Store.Table.{Table, table_eq, table_eq→eq}
use jtfp_cloudrun.Store.State.{Process, load_data, rows, next, id_or_one}
use jtfp_cloudrun.Store.Rows.{
  insert, new_row, update, updated_row, update_first, update_rows, remove_first, has_id,
  update_where, remove, remove_where,
}
use jtfp_cloudrun.Store.Views.{rows-insert, next-insert, rows-load_data, next-load_data}
use jtfp_cloudrun.Store.Changes.{
  rows-update, next-update, rows-remove, next-remove, rows-remove_where, next-remove_where,
  rows-update_where, next-update_where,
}
use jtfp_cloudrun.Store.Ids.{
  HasIdBelow, HasDistinctIds, get-id-new_row, get-id-updated_row, HasIdBelow-append,
  HasDistinctIds-append, HasDistinctIds-filter, All-remove_first, All-update_first, All-update_rows,
  HasDistinctIds-remove_first, HasDistinctIds-update_first, HasDistinctIds-update_rows,
  HasIdBelow-same,
}
use jtfp_cloudrun.Base.{All-filter}

-- The identifiers of a table: positive, below the next one, and used once.
abbrev pub AreIds : ℕ → List Row → Type 0
AreIds n rs = All (HasIdBelow n) rs × HasDistinctIds rs

pub record IsWellFormed (s : Process) : Type 0 where
  pub ids : (t : Table) → AreIds (next t s) (rows t s)

pub next-pos : (t : Table) (s : Process) → 1 ≤ next t s
unfolding next
next-pos t s = ground arith

-- A write of the file store, as a value: updates are objects.
pub data Write : Type 0 where
  insert_row : Table → Row → Write
  update_row : Table → Value → Row → Write
  update_matching : Table → (Row → Bool) → Row → Write
  remove_row : Table → Value → Write
  remove_matching : Table → (Row → Bool) → Write

unfoldable pub apply : Write → String → Process → Process
apply (insert_row t r) now s = (insert t r now s).1
apply (update_row t id r) now s = (update t id r now s).1
apply (update_matching t p r) now s = (update_where t p r now s).1
apply (remove_row t id) now s = (remove t id now s).1
apply (remove_matching t p) now s = (remove_where t p now s).1

unfoldable pub run : List (String × Write) → Process → Process
run [] s = s
run ((now, w) ∷ ws) s = run ws (apply w now s)

-- No update writes to the identifier.
abbrev pub KeepsIds : Write → Type 0
KeepsIds (update_row t id r) = HasNot "id" r
KeepsIds (update_matching t p r) = HasNot "id" r
KeepsIds _ = Unit

-- A table of the new process has the old rows and identifiers, or those that the write gave.
by_table :
    (b : Bool) (n n' : ℕ) (rs rs' : List Row)
    → AreIds n' rs'
    → AreIds n rs
    → AreIds (if b then n' else n) (if b then rs' else rs)
by_table true n n' rs rs' h k = h
by_table false n n' rs rs' h k = k

pub by_rows :
    (b : Bool) (n n' : ℕ) (rs rs' : List Row)
    → (b ≡ true → n ≡ n')
    → AreIds n' rs'
    → AreIds n rs
    → AreIds n (if b then rs' else rs)
by_rows true n n' rs rs' e h k = rw (e refl) h
by_rows false n n' rs rs' e h k = k

AreIds-append :
    (n : ℕ) (rs : List Row) (r : Row) (now : String)
    → 1 ≤ n
    → AreIds n rs
    → AreIds (suc n) (rs ++ new_row r n now ∷ [])
AreIds-append n rs r now p h = (
  HasIdBelow-append n rs (new_row r n now) p (get-id-new_row r n now) h.0,
  HasDistinctIds-append n rs (new_row r n now) (get-id-new_row r n now) h.0 h.1,
)

module _ (n : ℕ) (rs : List Row) (h : AreIds n rs) where
  AreIds-update_first :
      (p : Row → Bool) (r : Row) (now : String)
      → HasNot "id" r
      → AreIds n (update_first p (updated_row r now) rs)
  AreIds-update_first p r now k =
      let same = λ (q : Row). get-id-updated_row r now q k in
      (
        All-update_first (HasIdBelow n) p (updated_row r now)
            (HasIdBelow-same p (updated_row r now) same n) rs h.0,
        HasDistinctIds-update_first p (updated_row r now) same rs h.1,
      )

  AreIds-update_rows :
      (p : Row → Bool) (r : Row) (now : String)
      → HasNot "id" r
      → AreIds n (update_rows p (updated_row r now) rs)
  AreIds-update_rows p r now k =
      let same = λ (q : Row). get-id-updated_row r now q k in
      (
        All-update_rows (HasIdBelow n) p (updated_row r now)
            (HasIdBelow-same p (updated_row r now) same n) rs h.0,
        HasDistinctIds-update_rows p (updated_row r now) same rs h.1,
      )

  AreIds-remove_first : (p : Row → Bool) → AreIds n (remove_first p rs)
  AreIds-remove_first p =
      (All-remove_first (HasIdBelow n) p rs h.0, HasDistinctIds-remove_first p rs h.1)

  AreIds-filter : (p : Row → Bool) → AreIds n (filter p rs)
  AreIds-filter p = (All-filter (HasIdBelow n) p rs h.0, HasDistinctIds-filter p rs h.1)

same_next : (t u : Table) (s : Process) → table_eq t u ≡ true → next u s ≡ next t s
same_next t u s e = rw (table_eq→eq t u e)

pub load_data-IsWellFormed :
    (now : String) (s : Process) → IsWellFormed s → IsWellFormed (load_data now s)
load_data-IsWellFormed now s h = record { ids = λ t. rw (rows-load_data, next-load_data) (h.ids t) }

pub apply-IsWellFormed :
    (w : Write) (now : String) (s : Process)
    → KeepsIds w
    → IsWellFormed s
    → IsWellFormed (apply w now s)
unfolding apply
apply-IsWellFormed (insert_row t r) now s k h = record {
  ids = λ u.
      rw (rows-insert, next-insert)
        (by_table (table_eq t u) _ _ _ _
          (AreIds-append (next t s) (rows t s) r now (next-pos t s) (h.ids t)) (h.ids u));
}
apply-IsWellFormed (update_row t id r) now s k h = record {
  ids = λ u.
      rw (rows-update, next-update)
        (by_rows (table_eq t u) _ _ _ _ (same_next t u s)
          (AreIds-update_first (next t s) (rows t s) (h.ids t) (has_id id) r now k) (h.ids u));
}
apply-IsWellFormed (update_matching t p r) now s k h = record {
  ids = λ u.
      rw (rows-update_where, next-update_where)
        (by_rows (table_eq t u) _ _ _ _ (same_next t u s)
          (AreIds-update_rows (next t s) (rows t s) (h.ids t) p r now k) (h.ids u));
}
apply-IsWellFormed (remove_row t id) now s k h = record {
  ids = λ u.
      rw (rows-remove, next-remove)
        (by_rows (table_eq t u) _ _ _ _ (same_next t u s)
          (AreIds-remove_first (next t s) (rows t s) (h.ids t) (has_id id)) (h.ids u));
}
apply-IsWellFormed (remove_matching t p) now s k h = record {
  ids = λ u.
      rw (rows-remove_where, next-remove_where)
        (by_rows (table_eq t u) _ _ _ _ (same_next t u s)
          (AreIds-filter (next t s) (rows t s) (h.ids t) (λ r. not (p r))) (h.ids u));
}

-- From a process whose identifiers are well formed, any sequence of inserts, updates and removals
-- of which no update writes an identifier leads to a process whose identifiers are well formed:
-- in every table they are positive, below the next one to be handed out, and used once.
pub run-IsWellFormed :
    (ws : List (String × Write)) (s : Process)
    → All (λ w. KeepsIds w.1) ws
    → IsWellFormed s
    → IsWellFormed (run ws s)
unfolding run
run-IsWellFormed [] s k h = h
run-IsWellFormed ((now, w) ∷ ws) s k h =
    run-IsWellFormed ws (apply w now s) k.1 (apply-IsWellFormed w now s k.0 h)

apply-next-le :
    (w : Write) (now : String) (t : Table) (s : Process) → next t s ≤ next t (apply w now s)
unfolding apply
apply-next-le (insert_row u r) now t s = rw next-insert (grow (Bool-cases (table_eq u t)))
  where
    grow :
        (table_eq u t ≡ true) ⊎ (table_eq u t ≡ false)
        → next t s ≤ (if table_eq u t then suc (next u s) else next t s)
    grow (inl e) = rw (e, table_eq→eq u t e) (omega arith)
    grow (inr e) = rw e (omega arith)
apply-next-le (update_row u id r) now t s = rw next-update (omega arith)
apply-next-le (update_matching u p r) now t s = rw next-update_where (omega arith)
apply-next-le (remove_row u id) now t s = rw next-remove (omega arith)
apply-next-le (remove_matching u p) now t s = rw next-remove_where (omega arith)

-- No sequence of writes makes a table hand out an identifier again: the next one only grows.
pub run-next-le :
    (ws : List (String × Write)) (t : Table) (s : Process) → next t s ≤ next t (run ws s)
unfolding run
run-next-le [] t s = omega arith
run-next-le ((now, w) ∷ ws) t s =
    omega (arith, apply-next-le w now t s, run-next-le ws t (apply w now s))
