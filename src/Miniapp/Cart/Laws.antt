-- ===== src/Miniapp/Cart/Laws.antt =====
-- What the cart holds, under any taps.
use Prim.Native.Nat.{max}
use mathlib.Core.Option
use jtfp_cloudrun.Base.{
  ℕ, zero, suc, ◌+◌, ◌-◌, String, ◌≡◌, refl, sym, ap, ◌∙◌, Bool, true, false, Option, none, some,
  List, [], ◌∷◌, ◌++◌, arith, if◌then◌else◌, str_eq, eq_iff, eq_refl, find, All, All-find,
  Bool-cases, inl, inr,
}
use jtfp_cloudrun.Base.Int.{ℤ, pos, negsuc, ◌+ℤ◌}
use jtfp_cloudrun.Js.{Value, null, truthy, bool, num, str, int, strict_eq, or_else, to_number}
use jtfp_cloudrun.Js.Objects.{Row, get, spread, get-put}
use jtfp_cloudrun.Miniapp.Cart.Keys.{goods_key}
use jtfp_cloudrun.Miniapp.Cart.{
  Storage, number, at_least_one, plus, get_cart, make_key, has_key, update_keyed, is_one, new_item,
  merged, put_item, add_to_cart,
}

-- An item of the cart: it has a product and a SKU, or none, and the key of these two; its quantity
-- is at least one, and it is no welfare good.
pub record IsItem (r : Row) : Type 0 where
  pub product : ℕ
  pub sku : ℕ
  pub of_product : get "productId" r ≡ int product
  pub of_sku : or_else (get "skuId" r) (int 0) ≡ int sku
  pub keyed : get "key" r ≡ str (goods_key product sku)
  pub more : ℕ
  pub quantity : get "qty" r ≡ int (suc more)
  pub ordinary : get "is_welfare" r ≡ int 0

abbrev pub HasDistinctKeys : List Row → Type 0
HasDistinctKeys [] = Unit
HasDistinctKeys (r ∷ rs) = All (λ x. has_key (get "key" r) x ≡ false) rs × HasDistinctKeys rs

pub record IsCart (storage : Storage) : Type 0 where
  pub items : All IsItem (get_cart storage)
  pub distinct : HasDistinctKeys (get_cart storage)

-- The key that a product and its SKU have in the cart.
abbrev pub key_of : Row → String
key_of payload =
    make_key (number (get "productId" payload))
      (if truthy (get "skuId" payload) then number (get "skuId" payload) else int 0)

-- The goods of a product, by its number, and of a SKU, by its number or 0 for none.
pub record IsGoods (payload : Row) (product sku : ℕ) : Type 0 where
  pub of_product : number (get "productId" payload) ≡ int product
  pub of_sku :
      (if truthy (get "skuId" payload) then number (get "skuId" payload) else int 0) ≡ int sku

pub key_of-goods : (payload : Row) (p k : ℕ) → IsGoods payload p k → key_of payload ≡ goods_key p k
key_of-goods payload p k h = rw (h.of_product, h.of_sku) refl

or_null : (k : ℕ) → or_else (or_else (int k) null) (int 0) ≡ int k
or_null zero = refl
or_null (suc k) = ground arith

pub goods-new_item :
    (payload : Row) (p k : ℕ)
    → IsGoods payload p k
    → (get "productId" (new_item payload) ≡ int p)
      × (or_else (get "skuId" (new_item payload)) (int 0) ≡ int k)
unfolding get new_item
goods-new_item payload p k h = rw (h.of_product, h.of_sku) (refl, or_null k)

-- The quantity that is added, at least one.
abbrev pub added : ℤ → ℕ
added (pos n) = max 1 n
added (negsuc n) = 1

pub get-new_item :
    (payload : Row)
    → (get "key" (new_item payload) ≡ str (key_of payload))
      × (get "is_welfare" (new_item payload) ≡ int 0)
unfolding get new_item
get-new_item payload = (refl, refl)

pub at_least_one-num : (z : ℤ) → at_least_one (num z) ≡ int (added z)
unfolding at_least_one
at_least_one-num z = ground arith

pub qty-new_item :
    (payload : Row) (z : ℤ)
    → to_number (or_else (get "qty" payload) (int 1)) ≡ some z
    → get "qty" (new_item payload) ≡ int (added z)
unfolding get new_item
qty-new_item payload z e = rw e (at_least_one-num z)

module _ (payload existing : Row) where
  pub key-merged : get "key" (merged (new_item payload) existing) ≡ str (key_of payload)
  unfolding merged spread new_item
  key-merged = simp get-put

  product-merged :
      get "productId" (merged (new_item payload) existing) ≡ number (get "productId" payload)
  unfolding merged spread new_item
  product-merged = simp get-put

  sku-merged :
      get "skuId" (merged (new_item payload) existing)
      ≡ or_else (if truthy (get "skuId" payload) then number (get "skuId" payload) else int 0) null
  unfolding merged spread new_item
  sku-merged = simp get-put

  pub goods-merged :
      (p k : ℕ)
      → IsGoods payload p k
      → (get "productId" (merged (new_item payload) existing) ≡ int p)
        × (or_else (get "skuId" (merged (new_item payload) existing)) (int 0) ≡ int k)
  goods-merged p k h = rw (product-merged, sku-merged, h.of_product, h.of_sku) (refl, or_null k)

  pub ordinary-merged : get "is_welfare" (merged (new_item payload) existing) ≡ int 0
  unfolding merged spread new_item
  ordinary-merged = simp get-put

  pub qty-merged :
      (n : ℕ) (z : ℤ)
      → get "qty" existing ≡ int (suc n)
      → to_number (or_else (get "qty" payload) (int 1)) ≡ some z
      → get "qty" (merged (new_item payload) existing) ≡ int (suc n + added z)
  unfolding merged
  qty-merged n z e f = rw (get-put, e, qty-new_item payload z f) (sums n (added z))
    where
      sums :
          (m k : ℕ)
          → at_least_one (plus (number (or_else (int (suc m)) (int 0))) (int k)) ≡ int (suc m + k)
      sums m k = unfold at_least_one plus to_number ◌+ℤ◌ in ground arith

strict_eq-str : (v : Value) (k : String) → strict_eq v (str k) ≡ true → v ≡ str k
strict_eq-str (str s) k e = ap str ((eq_iff s k).0 e)
strict_eq-str (bool true) k e = cc
strict_eq-str (bool false) k e = cc
strict_eq-str _ k e = cc

pub has_key-eq : (k : String) (x : Row) → has_key (str k) x ≡ true → get "key" x ≡ str k
has_key-eq k x e = strict_eq-str (get "key" x) k e

pub added-pos : (z : ℤ) → (n : ℕ) × (added z ≡ suc n)
added-pos (pos n) = (max 1 n - 1, omega arith)
added-pos (negsuc n) = (0, refl)

-- An update that keeps the key of what it writes to.
module _ (key : Value) (f : Row → Row)
    (same : (x : Row) → has_key key x ≡ true → get "key" (f x) ≡ get "key" x) where
  pub All-update_keyed :
      (P : Row → Type 0) (rs : List Row)
      → ((x : Row) → has_key key x ≡ true → P x → P (f x))
      → All P rs
      → All P (update_keyed key f rs)
  unfolding update_keyed
  All-update_keyed P [] h a = tt
  All-update_keyed P (r ∷ rs) h a = elim (Bool-cases (has_key key r)) [
    | inl e ↦ rw e (h r e a.0, a.1)
    | inr e ↦ rw e (a.0, All-update_keyed P rs h a.1)
  ]

  pub HasDistinctKeys-update_keyed :
      (rs : List Row) → HasDistinctKeys rs → HasDistinctKeys (update_keyed key f rs)
  unfolding update_keyed
  HasDistinctKeys-update_keyed [] d = tt
  HasDistinctKeys-update_keyed (r ∷ rs) d = elim (Bool-cases (has_key key r)) [
    | inl e ↦ rw (e, same r e) d
    | inr e ↦ rw e (
      All-update_keyed (λ x. has_key (get "key" r) x ≡ false) rs (λ x p q. rw (same x p) q) d.0,
      HasDistinctKeys-update_keyed rs d.1,
    )
  ]

  find-update_keyed :
      (rs : List Row)
      → find (has_key key) (update_keyed key f rs) ≡ Option.map f (find (has_key key) rs)
  unfolding update_keyed
  find-update_keyed [] = refl
  find-update_keyed (r ∷ rs) = elim (Bool-cases (has_key key r)) [
    | inl e ↦ rw (e, same r e, e) refl
    | inr e ↦ rw (e, e) (find-update_keyed rs)
  ]

  find-update_keyed_other :
      (j : Value) (rs : List Row)
      → ((x : Row) → has_key key x ≡ true → has_key j x ≡ false)
      → find (has_key j) (update_keyed key f rs) ≡ find (has_key j) rs
  unfolding update_keyed
  find-update_keyed_other j [] h = refl
  find-update_keyed_other j (r ∷ rs) h = elim (Bool-cases (has_key key r)) [
    | inl e ↦ rw (e, same r e, h r e) refl
    | inr e ↦ elim (Bool-cases (has_key j r)) [
      | inl g ↦ rw (e, g) refl
      | inr g ↦ rw (e, g) (find-update_keyed_other j rs h)
    ]
  ]

find-append :
    (p : Row → Bool) (xs : List Row) (y : Row)
    → find p xs ≡ none
    → find p (xs ++ y ∷ []) ≡ (if p y then some y else none)
find-append p [] y e = refl
find-append p (x ∷ xs) y e = elim (Bool-cases (p x)) [
  | inl h ↦ absurd (ground (arith, h))
  | inr h ↦ rw h (find-append p xs y (rw h at e))
]

find-append_other :
    (p : Row → Bool) (xs : List Row) (y : Row) → p y ≡ false → find p (xs ++ y ∷ []) ≡ find p xs
find-append_other p [] y e = rw e
find-append_other p (x ∷ xs) y e = elim (Bool-cases (p x)) [
  | inl h ↦ rw h
  | inr h ↦ rw h (find-append_other p xs y e)
]

-- How many of a key the cart holds.
abbrev pub whole_of : Value → ℕ
whole_of (num (pos n)) = n
whole_of _ = 0

abbrev pub units : Option Row → ℕ
units none = 0
units (some r) = whole_of (get "qty" r)

unfoldable pub quantity : String → Storage → ℕ
quantity k storage = units (find (has_key (str k)) (get_cart storage))

distinct_keys :
    (j k : String)
    → str_eq k j ≡ false
    → (x : Row) → has_key (str k) x ≡ true
    → has_key (str j) x ≡ false
distinct_keys j k h x e = rw (has_key-eq k x e) h

-- Where goods of a key are put into a cart that has none of them, or some.
module _ (payload : Row) (z : ℤ) (cart : List Row)
    (whole : to_number (or_else (get "qty" payload) (int 1)) ≡ some z) where
  item_key : get "key" (new_item payload) ≡ str (key_of payload)
  item_key = (get-new_item payload).0

  merged_same :
      (x : Row)
      → has_key (str (key_of payload)) x ≡ true
      → get "key" (merged (new_item payload) x) ≡ get "key" x
  merged_same x e = key-merged payload x ∙ sym (has_key-eq (key_of payload) x e)

  put_item-own :
      (o : Option Row)
      → All IsItem cart
      → find (has_key (str (key_of payload))) cart ≡ o
      → units (find (has_key (str (key_of payload))) (put_item o (new_item payload) cart))
        ≡ units o + added z
  put_item-own none h e =
      ap units (find-append (has_key (str (key_of payload))) cart (new_item payload) e)
      ∙ rw (item_key, eq_refl (key_of payload), qty-new_item payload z whole) (omega arith)
  put_item-own (some r) h e =
      let item = All-find IsItem (has_key (str (key_of payload))) cart r h e in
      rw
        (
          item_key,
          find-update_keyed (str (key_of payload)) (merged (new_item payload)) merged_same cart,
          e,
        )
        (rw (qty-merged payload r item.more z item.quantity whole, item.quantity) refl)

  put_item-other :
      (o : Option Row) (k : String)
      → str_eq (key_of payload) k ≡ false
      → units (find (has_key (str k)) (put_item o (new_item payload) cart))
        ≡ units (find (has_key (str k)) cart)
  put_item-other none k h =
      ap units (find-append_other (has_key (str k)) cart (new_item payload) (rw item_key h))
  put_item-other (some r) k h = rw item_key (
      ap units (
        find-update_keyed_other (str (key_of payload)) (merged (new_item payload)) merged_same
          (str k) cart (distinct_keys k (key_of payload) h)))

-- Goods that are put into the cart add to what it holds under their key.
pub quantity-add_to_cart :
    (payload : Row) (z : ℤ) (k : String) (storage : Storage)
    → IsCart storage
    → is_one (get "is_welfare" payload) ≡ false
    → to_number (or_else (get "qty" payload) (int 1)) ≡ some z
    → quantity k (add_to_cart payload storage)
      ≡ (if str_eq (key_of payload) k then quantity k storage + added z else quantity k storage)
unfolding quantity add_to_cart
quantity-add_to_cart payload z k storage h ordinary whole =
    rw (ordinary, (get-new_item payload).0)
      (elim (Bool-cases (str_eq (key_of payload) k)) [
        | inl e ↦
            rw (e, ← (eq_iff (key_of payload) k).0 e)
              (put_item-own payload z (get_cart storage) whole _ h.items refl)
        | inr e ↦ rw e (put_item-other payload z (get_cart storage) whole _ k e)
      ])
