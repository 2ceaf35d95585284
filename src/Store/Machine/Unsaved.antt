-- ===== src/Store/Machine/Unsaved.antt =====
-- What is written is saved, unless a transaction is rolled back or the process crashes.
use mathlib.Core.List.{Perm}
use mathlib.Core.List.Perm
use jtfp_cloudrun.Base.{
  String, ◌≡◌, refl, sym, ap, ◌∙◌, Bool, true, false, List, map, arith, if◌then◌else◌, Bool-cases,
  inl, inr, ◌⊎◌,
}
use jtfp_cloudrun.Base.Sort.{sort, sort-perm}
use jtfp_cloudrun.Js.Objects.{Row, json_copy}
use jtfp_cloudrun.Store.Table.{Table, table_eq, table_eq→eq}
use jtfp_cloudrun.Store.State.{
  Process, StoreData, rows, next, load_data, write_rows, flush_now, flush_timer, state_ops,
}
use jtfp_cloudrun.Store.Rows.{insert}
use jtfp_cloudrun.Store.Views.{rows-flush_now, next-flush_now}
use jtfp_cloudrun.Store.Integrity.{Write, apply}
use jtfp_cloudrun.Store.Transaction.{clear_all, restart}
use jtfp_cloudrun.Store.Transaction.Laws.{is_loaded, insert-unsaved}
use jtfp_cloudrun.Store.Machine.{
  System, Step, with_process, put_in_order, read, list, write, fire, flush, begin, commit, abort,
  clear, crash,
}
use jtfp_cloudrun.Store.Machine.Sound.{flush_timer-eq}
use jtfp_cloudrun.Store.Machine.Idle.{
  IsSame, load_data-loaded, apply-flags, apply-IsSame, apply-dirty,
}
use jtfp_cloudrun.Store.Machine.Sorting.{rows-put_in_order, next-put_in_order}

-- The file holds what the process has: one that starts over it reads the same rows of every table,
-- copied through JSON and in the order of the last save, and hands out the same identifiers.
pub IsOnDisk : Process → Type 0
IsOnDisk s =
    (d : StoreData) (t : Table)
    → Perm (rows t (restart d s)) (map json_copy (rows t s)) × (next t (restart d s) ≡ next t s)

-- A loaded process whose data is on disk, or waits for the timer.
pub record IsSafe (s : Process) : Type 0 where
  pub loaded : is_loaded s ≡ true
  pub timer_set : s.dirty ≡ true → s.timer ≡ true
  pub saved : s.dirty ≡ false → IsOnDisk s

-- A flush of a loaded process, by the timer or at once.
flush_now-rows :
    (now : String) (s : Process) (d : StoreData) (t : Table)
    → is_loaded s ≡ true
    → s.dirty ≡ true
    → (rows t (restart d (flush_now now s)) ≡ map json_copy (rows t s))
      × (next t (restart d (flush_now now s)) ≡ next t s)
unfolding state_ops restart
flush_now-rows now s d t l h = ground arith

flush_now-clean :
    (now : String) (s : Process) (d : StoreData) (t : Table)
    → s.dirty ≡ false
    → (rows t (restart d (flush_now now s)) ≡ rows t (restart d s))
      × (next t (restart d (flush_now now s)) ≡ next t (restart d s))
unfolding state_ops restart
flush_now-clean now s d t h = ground arith

flush_now-saves :
    (now : String) (s : Process) (d : StoreData) (t : Table)
    → IsSafe s
    → Perm (rows t (restart d (flush_now now s))) (map json_copy (rows t s))
      × (next t (restart d (flush_now now s)) ≡ next t s)
unfolding IsOnDisk
flush_now-saves now s d t h = elim (Bool-cases s.dirty) [
  | inl e ↦ let (old, new) = flush_now-rows now s d t h.loaded e in rw (old, new) (Perm.rfl, refl)
  | inr e ↦ let (old, new) = flush_now-clean now s d t e in rw (old, new) (h.saved e d t)
]

flush_now-IsOnDisk : (now : String) (s : Process) → IsSafe s → IsOnDisk (flush_now now s)
unfolding IsOnDisk
flush_now-IsOnDisk now s h d t = rw (rows-flush_now, next-flush_now) (flush_now-saves now s d t h)

flush_now-flags :
    (now : String) (s : Process)
    → is_loaded s ≡ true
    → (is_loaded (flush_now now s) ≡ true) × ((flush_now now s).dirty ≡ false)
unfolding state_ops
flush_now-flags now s h = ground arith

flush_now-IsSafe : (now : String) (s : Process) → IsSafe s → IsSafe (flush_now now s)
flush_now-IsSafe now s h =
    let (loaded, clean) = flush_now-flags now s h.loaded in
    record {
      loaded = loaded;
      timer_set = λ e. absurd (ground (arith, e, clean));
      saved = λ _. flush_now-IsOnDisk now s h;
    }

restart-put_in_order :
    (t : Table) (leq : Row → Row → Bool) (now : String) (s : Process) (d : StoreData)
    → is_loaded s ≡ true
    → restart d (put_in_order t leq now s) ≡ restart d s
unfolding restart put_in_order write_rows
restart-put_in_order t leq now s d l = rw (load_data-loaded now s l) refl

put_in_order-flags :
    (t : Table) (leq : Row → Row → Bool) (now : String) (s : Process)
    → is_loaded s ≡ true
    → (is_loaded (put_in_order t leq now s) ≡ true)
      × ((put_in_order t leq now s).dirty ≡ s.dirty)
      × ((put_in_order t leq now s).timer ≡ s.timer)
unfolding put_in_order write_rows
put_in_order-flags t leq now s l = rw (load_data-loaded now s l) (refl, refl, refl)

sorted-Perm :
    (b : Bool) (leq : Row → Row → Bool) (xs ys : List Row)
    → (b ≡ true → xs ≡ ys)
    → Perm (map json_copy ys) (map json_copy (if b then sort leq xs else ys))
sorted-Perm true leq xs ys e = rw (← e refl) (Perm.map json_copy (Perm.symm (sort-perm leq xs)))
sorted-Perm false leq xs ys e = Perm.rfl

put_in_order-IsSafe :
    (t : Table) (leq : Row → Row → Bool) (now : String) (s : Process)
    → IsSafe s
    → IsSafe (put_in_order t leq now s)
unfolding IsOnDisk
put_in_order-IsSafe t leq now s h =
    let (loaded, dirty, timer) = put_in_order-flags t leq now s h.loaded in
    record {
      loaded = loaded;
      timer_set = λ e. timer ∙ h.timer_set (sym dirty ∙ e);
      saved = λ e d u.
          let (old, new) = h.saved (sym dirty ∙ e) d u in
          rw (restart-put_in_order t leq now s d h.loaded, rows-put_in_order, next-put_in_order)
            (
              Perm.trans old (
                  sorted-Perm (table_eq t u) leq (rows t s) (rows u s)
                    (λ q. ap (λ v. rows v s) (table_eq→eq t u q))),
              new,
            );
    }

restart-file : (s k : Process) (d : StoreData) → k.file ≡ s.file → restart d k ≡ restart d s
unfolding restart
restart-file s k d e = rw e refl

same-IsOnDisk : (s k : Process) → IsSame s k → IsOnDisk s → IsOnDisk k
unfolding IsSame IsOnDisk
same-IsOnDisk s k (file, data_of) h d t =
    rw (restart-file s k d file, (data_of t).0, (data_of t).1) (h d t)

apply-IsSafe : (w : Write) (now : String) (s : Process) → IsSafe s → IsSafe (apply w now s)
apply-IsSafe w now s h =
    let (loaded, timer_set) = apply-flags w now s h.loaded h.timer_set in
    record {
      loaded = loaded;
      timer_set = timer_set;
      saved = λ e. elim (Bool-cases s.dirty) [
        | inl d ↦ absurd (ground (arith, e, apply-dirty w now s h.loaded d))
        | inr d ↦ same-IsOnDisk s _ (apply-IsSame w now s h.loaded e) (h.saved d)
      ];
    }

clear_all-IsSafe : (now : String) (s : Process) → IsSafe (clear_all now s)
unfolding clear_all state_ops IsOnDisk restart
clear_all-IsSafe now s = record {
  loaded = refl;
  timer_set = λ e. absurd (ground (arith, e));
  saved = λ e d t. (Perm.rfl, refl);
}

load_data-IsSafe : (now : String) (s : Process) → IsSafe s → IsSafe (load_data now s)
load_data-IsSafe now s h = rw (load_data-loaded now s h.loaded) h

-- A step that loses nothing: no rollback, and no crash.
abbrev pub is_kept : {m n : System} → Step m n → Bool
is_kept (abort now e older newer d f) = false
is_kept (crash defaults d) = false
is_kept _ = true

pub data Keeps (m : System) : System → Type 0 where
  stays : Keeps m m
  keeps_on : {k n : System} → Keeps m k → (st : Step k n) → is_kept st ≡ true → Keeps m n

Step-IsSafe :
    (m n : System) (st : Step m n) → is_kept st ≡ true → IsSafe m.process → IsSafe n.process
Step-IsSafe m n (read now) k h = load_data-IsSafe now m.process h
Step-IsSafe m n (list t leq now) k h = put_in_order-IsSafe t leq now m.process h
Step-IsSafe m n (write w now i) k h = apply-IsSafe w now m.process h
Step-IsSafe m n (fire now e) k h =
    rw (flush_timer-eq now m.process) (flush_now-IsSafe now m.process h)
Step-IsSafe m n (flush now) k h = flush_now-IsSafe now m.process h
Step-IsSafe m n (begin now) k h = load_data-IsSafe now m.process h
Step-IsSafe m n (commit now older newer d e) k h = flush_now-IsSafe now m.process h
Step-IsSafe m n (abort now e older newer d f) k h = absurd (ground (arith, k))
Step-IsSafe m n (clear now) k h = clear_all-IsSafe now m.process
Step-IsSafe m n (crash defaults d) k h = absurd (ground (arith, k))

Keeps-IsSafe : (m n : System) → Keeps m n → IsSafe m.process → IsSafe n.process
Keeps-IsSafe m n stays h = h
Keeps-IsSafe m n (keeps_on {k} r st e) h = Step-IsSafe k n st e (Keeps-IsSafe m k r h)

insert-timer :
    (t : Table) (r : Row) (now : String) (s : Process) → (insert t r now s).1.timer ≡ true
unfolding insert state_ops
insert-timer t r now s = refl

insert-IsSafe : (t : Table) (r : Row) (now : String) (s : Process) → IsSafe (insert t r now s).1
insert-IsSafe t r now s =
    let (loaded, dirty) = insert-unsaved t r now s in
    record {
      loaded = loaded;
      timer_set = λ e. insert-timer t r now s;
      saved = λ e. absurd (ground (arith, e, dirty));
    }

pending_or_saved :
    (s : Process) (d : StoreData) (u : Table)
    → IsSafe s
    → (s.timer ≡ true) ⊎ Perm (rows u (restart d s)) (map json_copy (rows u s))
unfolding IsOnDisk
pending_or_saved s d u h = elim (Bool-cases s.dirty) [
  | inl e ↦ inl (h.timer_set e)
  | inr e ↦ inr (h.saved e d u).0
]

-- From an inserted row on, in any process, and whatever requests of which no update writes an
-- identifier, lists, timers, commits and clearings then happen, as long as no transaction is rolled
-- back and the process does not crash: the flush timer is pending, or a process that starts over the
-- file reads every row of every table, copied through JSON, though perhaps in the order of an
-- earlier save. And so it does once the timer has fired, when it also hands out the same
-- identifiers.
pub Keeps-saved :
    (m n : System) (t : Table) (r : Row) (now later : String) (d : StoreData) (u : Table)
    → Keeps (with_process m (insert t r now m.process).1) n
    → ((n.process.timer ≡ true)
        ⊎ Perm (rows u (restart d n.process)) (map json_copy (rows u n.process)))
      × Perm (rows u (restart d (flush_timer later n.process))) (map json_copy (rows u n.process))
      × (next u (restart d (flush_timer later n.process)) ≡ next u n.process)
Keeps-saved m n t r now later d u k =
    let h = Keeps-IsSafe _ n k (insert-IsSafe t r now m.process) in
    let (rows_on, next_on) = flush_now-saves later n.process d u h in
    rw (flush_timer-eq later n.process) (pending_or_saved n.process d u h, rows_on, next_on)
