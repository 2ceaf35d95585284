-- ===== src/Flcode/Codes/Batch.antt =====
-- What an import leaves in the table, and what it counts.
use jtfp_cloudrun.Base.{
  ℕ, ◌+◌, String, ◌≡◌, refl, ap, ◌∙◌, Bool, true, false, Option, none, some, List, [], ◌∷◌, length,
  arith, str_eq, eq_iff, Bool-cases, Option-cases, inl, inr, if◌then◌else◌, length-append,
}
use jtfp_cloudrun.Flcode.{
  FlCode, Inserted, row_id, constraint_unique, failure, Sqlite, IsUniqueTable,
}
use jtfp_cloudrun.Flcode.Codes.{
  Item, BatchResult, note_or_null, counted, add_each, add_codes_batch, get_code_by_phone,
}

-- The code and the note that a phone has: what was there, or else the first line of the import.
abbrev pub code_and_note : Option FlCode → Option (String × Option String)
code_and_note none = none
code_and_note (some row) = some (row.code, row.note)

abbrev pub first_of : String → List Item → Option (String × Option String)
first_of phone [] = none
first_of phone (item ∷ items) =
    let rest = first_of phone items in
    if str_eq item.phone phone then some (item.code, note_or_null item.note) else rest

abbrev pub or_first :
    Option (String × Option String)
    → Option (String × Option String)
    → Option (String × Option String)
or_first none y = y
or_first (some x) y = some x

or_first_assoc :
    (x : Option (String × Option String)) (b : Bool) (v : String × Option String)
    (y : Option (String × Option String))
    → or_first (or_first x (if b then some v else none)) y ≡ or_first x (if b then some v else y)
or_first_assoc none true v y = refl
or_first_assoc none false v y = refl
or_first_assoc (some x) b v y = refl

or_first-none : (x : Option (String × Option String)) → x ≡ or_first x none
or_first-none none = refl
or_first-none (some x) = refl

module _ (q : Sqlite) (t : IsUniqueTable q) where
  insert_code-claims :
      (p phone c : String) (n : Option String) (db : q.Db)
      → code_and_note (q.code_by_phone phone (q.insert_code p c n db).1)
        ≡ or_first
            (code_and_note (q.code_by_phone phone db))
            (if str_eq p phone then some (c, n) else none)
  insert_code-claims p phone c n db = elim (Bool-cases (str_eq p phone)) [
    | inl e ↦ rw (e, (eq_iff p phone).0 e) (own phone)
    | inr e ↦ rw (e, t.others p phone c n db (ground (arith, e, eq_iff p phone))) (or_first-none _)
  ]
    where
      own :
          (r : String)
          → code_and_note (q.code_by_phone r (q.insert_code r c n db).1)
            ≡ or_first (code_and_note (q.code_by_phone r db)) (some (c, n))
      own r = elim (Option-cases (q.code_by_phone r db)) [
        | inl new ↦
            let (i, row, done, found, same_code, same_note) = t.inserted r c n db new in
            rw (new, found, same_code, same_note) refl
        | inr (row, known) ↦ rw (t.refused r c n db row known, known) refl
      ]

  add_each-claims :
      (phone : String) (items : List Item) (r : BatchResult) (db : q.Db)
      → code_and_note (q.code_by_phone phone (add_each q items r db).1)
        ≡ or_first (code_and_note (q.code_by_phone phone db)) (first_of phone items)
  unfolding add_each
  add_each-claims phone [] r db = or_first-none _
  add_each-claims phone (item ∷ items) r db =
      add_each-claims phone items _ _
      ∙ ap (λ x. or_first x (first_of phone items))
          (insert_code-claims item.phone phone item.code (note_or_null item.note) db)
      ∙ or_first_assoc _ (str_eq item.phone phone) _ (first_of phone items)

  -- After an import every phone has the code and the note that it had before, or else those of its
  -- first line in the file: nothing that was handed out before is overwritten.
  pub add_codes_batch-claims :
      (phone : String) (items : List Item) (db : q.Db)
      → code_and_note (get_code_by_phone q phone (add_codes_batch q items db).1)
        ≡ or_first (code_and_note (get_code_by_phone q phone db)) (first_of phone items)
  unfolding add_codes_batch get_code_by_phone
  add_codes_batch-claims phone items db = add_each-claims phone items _ db

module _ (q : Sqlite) where
  -- How many lines an import has counted.
  lines_of : BatchResult → ℕ
  lines_of r = r.success + r.failed

  counted-lines_of :
      (i : Inserted) (phone : String) (r : BatchResult)
      → lines_of (counted q i phone r) ≡ lines_of r + 1
  unfolding lines_of
  counted-lines_of (row_id i) phone r = omega arith
  counted-lines_of constraint_unique phone r = omega arith
  counted-lines_of (failure message) phone r = omega arith

  counted-errors :
      (i : Inserted) (phone : String) (r : BatchResult)
      → length r.errors ≡ r.failed
      → length (counted q i phone r).errors ≡ (counted q i phone r).failed
  counted-errors (row_id i) phone r h = h
  counted-errors constraint_unique phone r h = rw (length-append, h) refl
  counted-errors (failure message) phone r h = rw (length-append, h) refl

  add_each-counts :
      (items : List Item) (r : BatchResult) (db : q.Db)
      → length r.errors ≡ r.failed
      → (lines_of (add_each q items r db).0 ≡ lines_of r + length items)
        × (length (add_each q items r db).0.errors ≡ (add_each q items r db).0.failed)
  unfolding add_each
  add_each-counts [] r db h = (omega arith, h)
  add_each-counts (item ∷ items) r db h =
      let (result, db1) = q.insert_code item.phone item.code (note_or_null item.note) db in
      let rest =
        add_each-counts items (counted q result item.phone r) db1
          (counted-errors result item.phone r h) in
      (
        rest.0 ∙ ap (λ n. n + length items) (counted-lines_of result item.phone r) ∙ omega arith,
        rest.1,
      )

  -- An import counts each line once, as a success or as a failure, and has one message for each
  -- failure, whatever the engine answers.
  pub add_codes_batch-counts :
      (items : List Item) (db : q.Db)
      → ((add_codes_batch q items db).0.success + (add_codes_batch q items db).0.failed
          ≡ length items)
        × (length (add_codes_batch q items db).0.errors ≡ (add_codes_batch q items db).0.failed)
  unfolding add_codes_batch lines_of
  add_codes_batch-counts items db =
      let (lines, errors) =
        add_each-counts items (record { success = 0; failed = 0; errors = [] }) db refl in
      (lines ∙ omega arith, errors)
