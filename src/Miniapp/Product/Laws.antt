-- ===== src/Miniapp/Product/Laws.antt =====
-- What a welfare good can be bought with.
use jtfp_cloudrun.Base.{
  ℕ, String, ◌≡◌, refl, ap, ◌∙◌, Bool, true, false, ◌||◌, Option, none, some, List, [], ◌∷◌,
  if◌then◌else◌, length, str_eq,
}
use jtfp_cloudrun.Js.{str, int, truthy}
use jtfp_cloudrun.Js.Text.{codes}
use jtfp_cloudrun.Js.Objects.{Row, get}
use jtfp_cloudrun.Miniapp.Product.{
  View, Welfare, start, is_welfare, display_of, update_display_price, first_digits,
  on_welfare_code_input, asks, dec_qty, inc_qty, Going, shows, to_checkout, Event, loads,
  load_fails, selects, less, more, types, fires, answers, fails, step, run, buy_now, buy_product,
  loaded, fired, take_quote,
}

-- Whether the server accepts a code in an event.
abbrev accepts : Event → Bool
accepts (answers i answer) = truthy (get "ok" answer)
accepts (loads p ss) = false
accepts (load_fails m) = false
accepts (selects id) = false
accepts less = false
accepts more = false
accepts (types t) = false
accepts fires = false
accepts (fails i m) = false

abbrev pub any_accepts : List Event → Bool
any_accepts [] = false
any_accepts (e ∷ es) = accepts e || any_accepts es

-- Without an accepted code
abbrev IsUnquoted : View → Type 0
IsUnquoted v = v.welfare.valid ≡ false

display_of-IsUnquoted : (p : Option Row) (v : View) → IsUnquoted v → IsUnquoted (display_of p v)
display_of-IsUnquoted none v e = e
display_of-IsUnquoted (some product) v e = e

update-IsUnquoted : (v : View) → IsUnquoted v → IsUnquoted (update_display_price v)
unfolding update_display_price
update-IsUnquoted v e = display_of-IsUnquoted v.product v e

if-IsUnquoted :
    (b : Bool) (v w : View) → IsUnquoted v → IsUnquoted w → IsUnquoted (if b then v else w)
if-IsUnquoted true v w p q = p
if-IsUnquoted false v w p q = q

or-left : (a b : Bool) → (a || b) ≡ false → a ≡ false
or-left true b e = e
or-left false b e = refl

or-right : (a b : Bool) → (a || b) ≡ false → b ≡ false
or-right true b e = cc
or-right false b e = e

module _ (trim : String → String) where
  asks-IsUnquoted :
      (p : Option Row) (value : String) (v : View) → IsUnquoted v → IsUnquoted (asks trim p value v)
  asks-IsUnquoted none value v e = e
  asks-IsUnquoted (some product) value v e = if-IsUnquoted _ _ _ e e

  fired-IsUnquoted : (t : Option String) (v : View) → IsUnquoted v → IsUnquoted (fired trim t v)
  fired-IsUnquoted none v e = e
  fired-IsUnquoted (some value) v e = asks-IsUnquoted v.product value (record v { timer = none }) e

  loaded-IsUnquoted :
      (p : Option Row) (ss : List Row) (v : View) → IsUnquoted v → IsUnquoted (loaded trim p ss v)
  loaded-IsUnquoted none ss v e = e
  loaded-IsUnquoted (some product) ss v e = update-IsUnquoted _ e

  take-IsUnquoted :
      (c : Option String) (i : ℕ) (w : Welfare) (v : View)
      → w.valid ≡ false
      → IsUnquoted v
      → IsUnquoted (take_quote trim c i w v)
  take-IsUnquoted none i w v n e = e
  take-IsUnquoted (some value) i w v n e = update-IsUnquoted _ n

  step-IsUnquoted :
      (e : Event) (v : View) → accepts e ≡ false → IsUnquoted v → IsUnquoted (step trim e v)
  unfolding step on_welfare_code_input dec_qty inc_qty
  step-IsUnquoted (loads p ss) v n h = loaded-IsUnquoted p ss v h
  step-IsUnquoted (load_fails m) v n h = h
  step-IsUnquoted (selects id) v n h = if-IsUnquoted _ _ _ (update-IsUnquoted _ h) h
  step-IsUnquoted less v n h = if-IsUnquoted _ _ _ h h
  step-IsUnquoted more v n h = if-IsUnquoted _ _ _ h h
  step-IsUnquoted (types t) v n h = if-IsUnquoted _ _ _ h (update-IsUnquoted _ refl)
  step-IsUnquoted fires v n h = fired-IsUnquoted v.timer v h
  step-IsUnquoted (answers i a) v n h = take-IsUnquoted _ i _ v n h
  step-IsUnquoted (fails i m) v n h = take-IsUnquoted _ i _ v refl h

  run-IsUnquoted :
      (es : List Event) (v : View)
      → any_accepts es ≡ false
      → IsUnquoted v
      → IsUnquoted (run trim es v)
  run-IsUnquoted [] v n h = h
  run-IsUnquoted (e ∷ es) v n h =
      run-IsUnquoted es (step trim e v) (or-right (accepts e) _ n)
        (step-IsUnquoted e v (or-left (accepts e) _ n) h)

  -- What the page says when there is no accepted code.
  abbrev pub complaint : View → Going
  complaint v = shows (if str_eq v.welfare.error "" then "请先输入正确的福利码" else v.welfare.error)

  bought-unquoted :
      (v : View) (p : Row)
      → is_welfare p ≡ true
      → IsUnquoted v
      → buy_product trim (some p) v ≡ complaint v
  bought-unquoted v p w h = rw (w, h) refl

  -- Whatever the user does on a product's page, and in whatever order the answers come: while
  -- the server has accepted no code, buying a welfare good shows a message and goes nowhere.
  pub buy_now-needs_quote :
      (es : List Event) (p : Row)
      → any_accepts es ≡ false
      → (run trim es start).product ≡ some p
      → is_welfare p ≡ true
      → buy_now trim (run trim es start) ≡ complaint (run trim es start)
  unfolding buy_now
  buy_now-needs_quote es p n e w =
      ap (λ q. buy_product trim q (run trim es start)) e
      ∙ bought-unquoted (run trim es start) p w (run-IsUnquoted es start n refl)

  -- The checkout of a welfare good with a code, at the price of a quote.
  abbrev pub checkout_with : Row → String → Welfare → Going
  checkout_with p value w = to_checkout (
      ("productId", get "id" p)
      ∷ ("qty", int 1)
      ∷ ("inviteCode", str (trim value))
      ∷ ("welfarePriceCent", w.price_cent)
      ∷ ("welfareNote", str w.note)
      ∷ [])

  bought-quoted :
      (v : View) (p : Row)
      → is_welfare p ≡ true
      → v.welfare.valid ≡ true
      → buy_product trim (some p) v ≡ checkout_with p v.code v.welfare
  bought-quoted v p w h = rw (w, h) refl

  -- Once a code is accepted, six other digits typed over it (pasted, say) keep the quote: buying
  -- at once goes to the checkout with the new code, which nobody checked, at the old code's price.
  pub types-keeps_quote :
      (text : String) (v : View) (p : Row)
      → v.product ≡ some p
      → is_welfare p ≡ true
      → v.welfare.valid ≡ true
      → length (codes (first_digits 6 text)) ≡ 6
      → buy_now trim (step trim (types text) v) ≡ checkout_with p (first_digits 6 text) v.welfare
  unfolding step buy_now on_welfare_code_input
  types-keeps_quote text v p e w h six = rw six (
      ap
        (λ q.
          buy_product trim q
            (record v { code = first_digits 6 text; timer = some (first_digits 6 text) }))
        e
      ∙ bought-quoted (record v { code = first_digits 6 text; timer = some (first_digits 6 text) })
          p w h)
