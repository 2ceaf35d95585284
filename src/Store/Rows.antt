-- ===== src/Store/Rows.antt =====
-- Reading and writing rows. An update, `{ ...row, ...updates }`, is an object; a predicate is a
-- Boolean test.
use jtfp_cloudrun.Base.{
  ℕ, ◌-◌, String, Bool, true, false, not, Option, List, [], ◌∷◌, ◌++◌, length, filter, find,
  if◌then◌else◌, ltb,
}
use jtfp_cloudrun.Base.Int.{pos}
use jtfp_cloudrun.Js.{Value, num, str, strict_eq, or_else}
use jtfp_cloudrun.Js.Objects.{Row, get, put, spread}
use jtfp_cloudrun.Store.Table.{Table}
use jtfp_cloudrun.Store.State.{
  Process, cached, write_rows, assign_rows, mark_dirty, next_id, get_table,
}

-- The row that `insert` makes of `row`.
unfoldable pub new_row : Row → ℕ → String → Row
new_row row id now =
    put "updated_at" (or_else (get "updated_at" row) (str now))
      (put "created_at" (or_else (get "created_at" row) (str now)) (put "id" (num (pos id)) row))

-- insert
unfoldable pub insert : Table → Row → String → Process → Row × Process
insert t row now s =
    let (id, s1) = next_id t now s in
    let fresh = new_row row id now in
    (fresh, mark_dirty (write_rows t ((cached s1).tables t ++ fresh ∷ []) s1))

-- (r) => r.id === id
abbrev pub has_id : Value → Row → Bool
has_id id r = strict_eq (get "id" r) id

-- findOne: `rows.find(predicate) || null`
unfoldable pub find_one : Table → (Row → Bool) → String → Process → Option Row × Process
find_one t p now s = let (found, s1) = get_table t now s in (find p found, s1)

-- findById
unfoldable pub find_by_id : Table → Value → String → Process → Option Row × Process
find_by_id t id now s = let (found, s1) = get_table t now s in (find (has_id id) found, s1)

-- findAll with a predicate
unfoldable pub find_all : Table → (Row → Bool) → String → Process → List Row × Process
find_all t p now s = let (found, s1) = get_table t now s in (filter p found, s1)

-- count with a predicate
unfoldable pub count : Table → (Row → Bool) → String → Process → ℕ × Process
count t p now s = let (found, s1) = get_table t now s in (length (filter p found), s1)

abbrev pub has : (Row → Bool) → List Row → Bool
has p [] = false
has p (r ∷ rs) = let rest = has p rs in if p r then true else rest

-- { ...row, ...updates, updated_at: now }
unfoldable pub updated_row : Row → String → Row → Row
updated_row updates now r = put "updated_at" (str now) (spread r updates)

-- rows[findIndex(p)] = f(rows[findIndex(p)])
unfoldable pub update_first : (Row → Bool) → (Row → Row) → List Row → List Row
update_first p f [] = []
update_first p f (r ∷ rs) = let rest = update_first p f rs in if p r then f r ∷ rs else r ∷ rest

-- rows.splice(findIndex(p), 1)
unfoldable pub remove_first : (Row → Bool) → List Row → List Row
remove_first p [] = []
remove_first p (r ∷ rs) = let rest = remove_first p rs in if p r then rs else r ∷ rest

-- update
unfoldable pub update : Table → Value → Row → String → Process → Bool × Process
update t id updates now s =
    let (old, s1) = get_table t now s in
    if has (has_id id) old
    then (
      true,
      mark_dirty (write_rows t (update_first (has_id id) (updated_row updates now) old) s1),
    )
    else (false, s1)

-- The loop of `updateWhere`: every row that the predicate takes.
unfoldable pub update_rows : (Row → Bool) → (Row → Row) → List Row → List Row
update_rows p f [] = []
update_rows p f (r ∷ rs) = (if p r then f r else r) ∷ update_rows p f rs

-- updateWhere
unfoldable pub update_where : Table → (Row → Bool) → Row → String → Process → ℕ × Process
update_where t p updates now s =
    let (old, s1) = get_table t now s in
    let n = length (filter p old) in
    let s2 = write_rows t (update_rows p (updated_row updates now) old) s1 in
    (n, if has p old then mark_dirty s2 else s1)

-- remove
unfoldable pub remove : Table → Value → String → Process → Bool × Process
remove t id now s =
    let (old, s1) = get_table t now s in
    if has (has_id id) old
    then (true, mark_dirty (write_rows t (remove_first (has_id id) old) s1))
    else (false, s1)

-- removeWhere: the table gets a new array, without the rows that the predicate takes.
unfoldable pub remove_where : Table → (Row → Bool) → String → Process → ℕ × Process
remove_where t p now s =
    let (old, s1) = get_table t now s in
    let kept = filter (λ r. not (p r)) old in
    let s2 = assign_rows t kept s1 in
    let removed = length old - length kept in (removed, if ltb 0 removed then mark_dirty s2 else s2)

-- Names the operations on rows, for a proof or a test that runs them.
unfoldable pub row_ops : Unit {0}
unfolding new_row insert find_one find_by_id find_all count updated_row update_first remove_first
    update update_rows update_where remove remove_where
row_ops = tt
