-- ===== src/Miniapp/OrderList/Laws.antt =====
-- What the list shows of the orders that the server pages.
use mathlib.Core.List.{map-append}
use jtfp_cloudrun.Base.{
  ℕ, zero, suc, ◌+◌, ◌*◌, ◌≤◌, leb, String, ◌≡◌, refl, sym, ap, ◌∙◌, false, none, some, List, [],
  ◌∷◌, ◌++◌, map, ap₂, length, take, arith, Bool-cases, inl, inr, length-take, ◌⊎◌, min,
}
use jtfp_cloudrun.Base.Int.{pos}
use jtfp_cloudrun.Js.Objects.{Row}
use jtfp_cloudrun.Repositories.Paging.{page_of}
use jtfp_cloudrun.Repositories.Paging.Laws.{pages, pages-all, pages-take}
use jtfp_cloudrun.Miniapp.OrderList.{
  View, asked, start, reload, reach_bottom, normalized, Event, shows, reaches_bottom, logs_in,
  answers, fails, step, run,
}

length-map : (f : Row → Row) (xs : List Row) → length (map f xs) ≡ length xs
length-map f [] = refl
length-map f (x ∷ xs) = ap suc (length-map f xs)

module _ (trim : String → String) (rs : List Row) where
  -- The page of ten that the server answers with, and the events of a page that arrives.
  abbrev pub server_page : ℕ → List Row
  server_page k = page_of (some (pos k)) (some (pos 10)) rs

  abbrev pub arrival : ℕ → List (Event trim)
  arrival k = logs_in 0 ∷ answers 0 (server_page k) (length rs) ∷ []

  -- The user opens the page, and scrolls to its end n times.
  abbrev pub scrolling : ℕ → List (Event trim)
  scrolling zero = shows ∷ arrival 1
  scrolling (suc n) = scrolling n ++ reaches_bottom ∷ arrival (suc (suc n))

  run-append :
      (es fs : List (Event trim)) (v : View) → run trim (es ++ fs) v ≡ run trim fs (run trim es v)
  run-append [] fs v = refl
  run-append (e ∷ es) fs v = run-append es fs (step trim e v)

  -- The view when n + 1 pages have arrived, or all there are.
  abbrev settled : ℕ → ℕ → View
  settled n p = record {
    loading = false;
    error = none;
    orders = map (normalized trim) (pages (suc n) 9 rs);
    page = p;
    total = length rs;
    calls = [];
  }

  -- All pages have arrived, or n + 1 of them.
  abbrev IsSettled : ℕ → View → Type 0
  IsSettled n v = (p : ℕ) × (v ≡ settled n p) × ((p ≡ suc n) ⊎ (length rs ≤ suc n * 10))

  first_page : IsSettled zero (run trim (scrolling zero) start)
  unfolding step reload pages
  first_page = (1, refl, inl refl)

  shown : ℕ → ℕ
  shown n = length (map (normalized trim) (pages (suc n) 9 rs))

  shown-eq-min : (n : ℕ) → shown n ≡ min (suc n * 10) (length rs)
  unfolding shown
  shown-eq-min n =
      length-map (normalized trim) (pages (suc n) 9 rs)
      ∙ ap length (pages-take (suc n) 9 rs)
      ∙ length-take (suc n * 10) rs

  next_page :
      (n p : ℕ)
      → (p ≡ suc n) ⊎ (length rs ≤ suc n * 10)
      → IsSettled (suc n) (run trim (reaches_bottom ∷ arrival (suc (suc n))) (settled n p))
  unfolding step reach_bottom shown pages
  next_page n p h = elim (Bool-cases (leb (length rs) (shown n))) [
    | inl full ↦
        let enough : length rs ≤ suc n * 10 = ground (arith, shown-eq-min n) in
        rw full (
          p,
          ap (λ (xs : List Row). record (settled n p) { orders = map (normalized trim) xs })
              (pages-all (suc n) 9 rs enough ∙ sym (pages-all (suc (suc n)) 9 rs (omega arith))),
          inr (omega arith),
        )
    | inr more ↦ rw more (suc (suc n), arrived more, inl refl)
  ]
    where
      counted : leb (length rs) (shown n) ≡ false → p + 1 ≡ suc (suc n)
      counted more = ground (arith, shown-eq-min n)

      arrived :
          leb (length rs) (shown n) ≡ false
          → record (settled n (p + 1)) {
            orders =
                map (normalized trim) (pages (suc n) 9 rs)
                ++ map (normalized trim) (server_page (suc (suc n)));
          }
            ≡ settled (suc n) (suc (suc n))
      arrived more =
          ap₂ (λ (xs : List Row) (q : ℕ). record (settled n q) { orders = xs })
            (sym (map-append (normalized trim) (pages (suc n) 9 rs) (server_page (suc (suc n)))))
            (counted more)

  scrolling-IsSettled : (n : ℕ) → IsSettled n (run trim (scrolling n) start)
  scrolling-IsSettled zero = first_page
  scrolling-IsSettled (suc n) =
      let (p, e, h) = scrolling-IsSettled n in
      rw (run-append (scrolling n) (reaches_bottom ∷ arrival (suc (suc n))) start, e)
        (next_page n p h)

  -- A user who opens the list and scrolls to its end n times, where every page that is asked for
  -- arrives before the next is, sees the first (n + 1) * 10 of the orders that the server pages,
  -- each once and in their order; and where fewer are left, all.
  pub scrolling-take :
      (n : ℕ)
      → ((run trim (scrolling n) start).orders ≡ map (normalized trim) (take (suc n * 10) rs))
        × ((run trim (scrolling n) start).loading ≡ false)
        × ((run trim (scrolling n) start).total ≡ length rs)
  scrolling-take n =
      let (p, e, h) = scrolling-IsSettled n in
      rw e (ap (map (normalized trim)) (pages-take (suc n) 9 rs), refl, refl)

-- Where a page that was scrolled to fails to load, the next time that the end is reached the list
-- asks for the page behind it: what arrives then is appended, and the failed page's orders are
-- left out.
pub fails-skips :
    (trim : String → String) (v : View) (message : String) (rs : List Row) (total : ℕ)
    → v.loading ≡ false
    → v.calls ≡ []
    → leb v.total (length v.orders) ≡ false
    → let asking : View =
        run trim
          (reaches_bottom ∷ logs_in 0 ∷ fails 0 message ∷ reaches_bottom ∷ logs_in 0 ∷ [])
          v in
      (asking.calls ≡ asked false (v.page + 2) ∷ [])
      × ((step trim (answers 0 rs total) asking).orders ≡ v.orders ++ map (normalized trim) rs)
unfolding step reach_bottom
fails-skips trim v message rs total idle none_open more =
    rw (idle, more, none_open) (rw more (ap (λ (p : ℕ). asked false p ∷ []) (omega arith), refl))
