-- ===== src/Miniapp/Cart/Taps.antt =====
-- The cart under any sequence of taps.
use jtfp_cloudrun.Base.{
  ℕ, suc, ◌+◌, String, ◌≡◌, refl, sym, ap, ◌∙◌, Bool, true, false, Option, none, some, List, [],
  ◌∷◌, ◌++◌, arith, if◌then◌else◌, eq_iff, find, filter, All, All-append, All-filter, All-find,
  Bool-cases, inl, inr,
}
use jtfp_cloudrun.Base.Int.{ℤ, pos, ◌+ℤ◌, ◌-ℤ◌, eq_ℤ}
use jtfp_cloudrun.Js.{Value, num, str, int, or_else, to_number}
use jtfp_cloudrun.Js.Objects.{Row, get, get-put}
use jtfp_cloudrun.Miniapp.Cart.Keys.{goods_key}
use jtfp_cloudrun.Miniapp.Cart.{
  Storage, number, at_least_one, get_cart, set_cart, has_key, is_one, new_item, merged, put_item,
  add_to_cart, with_qty, set_qty, update_qty, remove_item, clear_cart, Answer, less_found, dec,
  more_found, inc,
}
use jtfp_cloudrun.Miniapp.Cart.Laws.{
  IsItem, HasDistinctKeys, IsCart, key_of, added, added-pos, at_least_one-num, get-new_item,
  qty-new_item, IsGoods, key_of-goods, goods-new_item, goods-merged, key-merged, ordinary-merged,
  qty-merged, has_key-eq, All-update_keyed, HasDistinctKeys-update_keyed,
}

-- What a user does to the cart: puts goods into it, taps "+" or "-" at an item, confirms a
-- removal, or pays.
pub data Tap : Type 0 where
  adds : Row → Tap
  more : Value → Tap
  less : Value → Tap
  removes : Value → Tap
  pays : Tap

abbrev pub after : Tap → Storage → Storage
after (adds payload) s = add_to_cart payload s
after (more key) s = (inc key s).1
after (less key) s = (dec key s).1
after (removes key) s = remove_item key s
after pays s = clear_cart s

abbrev pub run_taps : List Tap → Storage → Storage
run_taps [] s = s
run_taps (t ∷ ts) s = run_taps ts (after t s)

-- Goods that are added have a product, a SKU or none, and a number.
abbrev pub IsWhole : Tap → Type 0
IsWhole (adds payload) =
    (p : ℕ) × (k : ℕ) × (z : ℤ) × IsGoods payload p k
    × (to_number (or_else (get "qty" payload) (int 1)) ≡ some z)
IsWhole _ = Unit

new_item-IsItem :
    (payload : Row) (p k : ℕ) (z : ℤ)
    → IsGoods payload p k
    → to_number (or_else (get "qty" payload) (int 1)) ≡ some z
    → IsItem (new_item payload)
new_item-IsItem payload p k z g e =
    let (n, f) = added-pos z in
    record {
      product = p;
      sku = k;
      of_product = (goods-new_item payload p k g).0;
      of_sku = (goods-new_item payload p k g).1;
      keyed = (get-new_item payload).0 ∙ ap str (key_of-goods payload p k g);
      more = n;
      quantity = qty-new_item payload z e ∙ ap int f;
      ordinary = (get-new_item payload).1;
    }

merged-IsItem :
    (payload : Row) (p k : ℕ) (z : ℤ) (x : Row)
    → IsGoods payload p k
    → to_number (or_else (get "qty" payload) (int 1)) ≡ some z
    → IsItem x
    → IsItem (merged (new_item payload) x)
merged-IsItem payload p k z x g e h = record {
  product = p;
  sku = k;
  of_product = (goods-merged payload x p k g).0;
  of_sku = (goods-merged payload x p k g).1;
  keyed = key-merged payload x ∙ ap str (key_of-goods payload p k g);
  more = h.more + added z;
  quantity = qty-merged payload x h.more z h.quantity e ∙ ap int (omega arith);
  ordinary = ordinary-merged payload x;
}

absent_key :
    (key : Value) (rs : List Row)
    → find (has_key key) rs ≡ none
    → All (λ x. has_key key x ≡ false) rs
absent_key key [] e = tt
absent_key key (r ∷ rs) e = elim (Bool-cases (has_key key r)) [
  | inl h ↦ absurd (ground (arith, h))
  | inr h ↦ (h, absent_key key rs (rw h at e))
]

HasDistinctKeys-append :
    (rs : List Row) (k : String) (r : Row)
    → get "key" r ≡ str k
    → All IsItem rs
    → HasDistinctKeys rs
    → All (λ x. has_key (str k) x ≡ false) rs
    → HasDistinctKeys (rs ++ r ∷ [])
HasDistinctKeys-append [] k r e i d h = (tt, tt)
HasDistinctKeys-append (x ∷ rs) k r e i d h = (
  All-append (λ y. has_key (get "key" x) y ≡ false) rs (r ∷ []) d.0 (flipped, tt),
  HasDistinctKeys-append rs k r e i.1 d.1 h.1,
)
  where
    flipped : has_key (get "key" x) r ≡ false
    flipped =
        let j = goods_key i.0.product i.0.sku in
        rw (e, i.0.keyed) (ground (arith, eq_iff k j, eq_iff j k, rw i.0.keyed at h.0))

HasDistinctKeys-filter :
    (p : Row → Bool) (rs : List Row) → HasDistinctKeys rs → HasDistinctKeys (filter p rs)
HasDistinctKeys-filter p [] d = tt
HasDistinctKeys-filter p (r ∷ rs) d = elim (Bool-cases (p r)) [
  | inl e ↦ rw e (All-filter _ p rs d.0, HasDistinctKeys-filter p rs d.1)
  | inr e ↦ rw e (HasDistinctKeys-filter p rs d.1)
]

put_item-IsCart :
    (payload : Row) (p k : ℕ) (z : ℤ) (cart : List Row) (o : Option Row)
    → IsGoods payload p k
    → to_number (or_else (get "qty" payload) (int 1)) ≡ some z
    → find (has_key (get "key" (new_item payload))) cart ≡ o
    → IsCart (some cart)
    → IsCart (set_cart (put_item o (new_item payload) cart))
put_item-IsCart payload p k z cart none g e f h = record {
  items =
      All-append IsItem cart (new_item payload ∷ []) h.items
        (new_item-IsItem payload p k z g e, tt);
  distinct =
      HasDistinctKeys-append cart (key_of payload) (new_item payload) (get-new_item payload).0
        h.items h.distinct
        (absent_key (str (key_of payload)) cart (rw (get-new_item payload).0 at f));
}
put_item-IsCart payload p k z cart (some r) g e f h = record {
  items = rw (get-new_item payload).0 (
      All-update_keyed key (merged (new_item payload)) same IsItem cart
        (λ x _ i. merged-IsItem payload p k z x g e i) h.items);
  distinct =
      rw (get-new_item payload).0
        (HasDistinctKeys-update_keyed key (merged (new_item payload)) same cart h.distinct);
}
  where
    key : Value
    key = str (key_of payload)

    same : (x : Row) → has_key key x ≡ true → get "key" (merged (new_item payload) x) ≡ get "key" x
    same x has = key-merged payload x ∙ sym (has_key-eq (key_of payload) x has)

whole_qty : (z : ℤ) → (n : ℕ) × (at_least_one (number (or_else (num z) (int 1))) ≡ int (suc n))
unfolding to_number
whole_qty z = elim (Bool-cases (eq_ℤ z (pos 0))) [
  | inl e ↦ rw e (0, unfold at_least_one in refl)
  | inr e ↦ rw e (let (n, f) = added-pos z in (n, at_least_one-num z ∙ ap int f))
]

with_qty-IsItem : (z : ℤ) (x : Row) → IsItem x → IsItem (with_qty (num z) x)
unfolding with_qty to_number at_least_one
with_qty-IsItem z x h =
    let (n, e) = whole_qty z in
    record {
      product = h.product;
      sku = h.sku;
      of_product = rw get-put h.of_product;
      of_sku = rw get-put h.of_sku;
      keyed = rw get-put h.keyed;
      more = n;
      quantity = rw (get-put, h.ordinary) e;
      ordinary = rw get-put h.ordinary;
    }

set_qty-IsCart :
    (z : ℤ) (key : Value) (o : Option Row) (s : Storage)
    → IsCart s
    → IsCart (set_qty o key (num z) s)
set_qty-IsCart z key none s h = h
set_qty-IsCart z key (some r) s h = record {
  items =
      All-update_keyed key (with_qty (num z)) (λ x k. same x) IsItem (get_cart s)
        (λ x k i. with_qty-IsItem z x i) h.items;
  distinct =
      HasDistinctKeys-update_keyed key (with_qty (num z)) (λ x k. same x) (get_cart s) h.distinct;
}
  where
    same : (x : Row) → get "key" (with_qty (num z) x) ≡ get "key" x
    same x = unfold with_qty in rw get-put

update_qty-IsCart :
    (z : ℤ) (key : Value) (s : Storage) → IsCart s → IsCart (update_qty key (num z) s)
unfolding update_qty
update_qty-IsCart z key s h = set_qty-IsCart z key _ s h

-- A tap at "-" or "+" leaves the cart alone, or writes a whole number.
one_of :
    (b : Bool) (answer other : Answer) (z : ℤ) (key : Value) (s : Storage)
    → IsCart s
    → IsCart
        (if◌then◌else◌ {A = Answer × Storage} b (answer, s) (other, update_qty key (num z) s)).1
one_of true answer other z key s h = h
one_of false answer other z key s h = update_qty-IsCart z key s h

number_of_qty : (n : ℕ) → to_number (or_else (int (suc n)) (int 1)) ≡ some (pos (suc n))
unfolding to_number
number_of_qty n = ground arith

less_found-IsCart :
    (o : Option Row) (key : Value) (s : Storage)
    → find (has_key key) (get_cart s) ≡ o
    → IsCart s
    → IsCart (less_found o key s).1
unfolding to_number
less_found-IsCart none key s e h = h
less_found-IsCart (some r) key s e h =
    let item = All-find IsItem (has_key key) (get_cart s) r h.items e in
    rw (item.ordinary, item.quantity, number_of_qty item.more)
      (one_of _ _ _ (pos (suc item.more) -ℤ pos 1) key s h)

more_found-IsCart :
    (o : Option Row) (key : Value) (s : Storage)
    → find (has_key key) (get_cart s) ≡ o
    → IsCart s
    → IsCart (more_found o key s).1
unfolding to_number
more_found-IsCart none key s e h = h
more_found-IsCart (some r) key s e h =
    let item = All-find IsItem (has_key key) (get_cart s) r h.items e in
    rw (item.ordinary, item.quantity, number_of_qty item.more)
      (one_of _ _ _ (pos (suc item.more) +ℤ pos 1) key s h)

pub add_to_cart-IsCart :
    (payload : Row) (p k : ℕ) (z : ℤ) (s : Storage)
    → IsGoods payload p k
    → to_number (or_else (get "qty" payload) (int 1)) ≡ some z
    → IsCart s
    → IsCart (add_to_cart payload s)
unfolding add_to_cart
add_to_cart-IsCart payload p k z s g e h = elim (Bool-cases (is_one (get "is_welfare" payload))) [
  | inl b ↦ rw b h
  | inr b ↦ rw b (put_item-IsCart payload p k z (get_cart s) _ g e refl (loaded s h))
]
  where
    loaded : (s : Storage) → IsCart s → IsCart (some (get_cart s))
    loaded s h = record { items = h.items; distinct = h.distinct }

after-IsCart : (t : Tap) (s : Storage) → IsWhole t → IsCart s → IsCart (after t s)
unfolding dec inc remove_item
after-IsCart (adds payload) s (p, k, z, g, e) h = add_to_cart-IsCart payload p k z s g e h
after-IsCart (more key) s w h = more_found-IsCart _ key s refl h
after-IsCart (less key) s w h = less_found-IsCart _ key s refl h
after-IsCart (removes key) s w h = record {
  items = All-filter IsItem _ (get_cart s) h.items;
  distinct = HasDistinctKeys-filter _ (get_cart s) h.distinct;
}
after-IsCart pays s w h = record { items = tt; distinct = tt }

-- The cart stays a cart.
pub run_taps-IsCart :
    (ts : List Tap) (s : Storage) → All IsWhole ts → IsCart s → IsCart (run_taps ts s)
run_taps-IsCart [] s w h = h
run_taps-IsCart (t ∷ ts) s w h = run_taps-IsCart ts (after t s) w.1 (after-IsCart t s w.0 h)
