-- ===== src/Miniapp/Cart.antt =====
-- The cart in the phone's storage, miniapp/utils/cart.js, and what the page of
-- miniapp/pages/cart/index.js does with it. The storage holds a list of items, or something else.
pub mod Laws
pub mod Taps
pub mod Keys
pub mod Goods
use Prim.Native.String.{◌++◌ as str_append}
use jtfp_cloudrun.Base.{
  String, Bool, true, false, not, Option, none, some, List, [], ◌∷◌, ◌++◌, if◌then◌else◌, find,
  filter,
}
use jtfp_cloudrun.Base.Int.{ℤ, pos, ◌+ℤ◌, ◌-ℤ◌, ◌*ℤ◌, ltb_ℤ, leb_ℤ, eq_ℤ}
use jtfp_cloudrun.Js.{
  Value, undefined, null, nan, num, str, int, strict_eq, truthy, or_else, to_number, to_text,
  of_number, lift_number,
}
use jtfp_cloudrun.Js.Objects.{Row, get, put, spread}

abbrev pub Storage : Type 0
Storage = Option (List Row)

-- Number(v)
abbrev pub number : Value → Value
number v = of_number (to_number v)

-- Math.max(1, n), on what Number gives
unfoldable pub at_least_one : Value → Value
at_least_one v = elim v [ num n ↦ num (if leb_ℤ n (pos 1) then pos 1 else n) | _ ↦ nan ]

-- a + b on what Number gives
unfoldable pub plus : Value → Value → Value
unfolding to_number
plus a b = lift_number ◌+ℤ◌ (to_number a) (to_number b)

-- getCart
abbrev pub get_cart : Storage → List Row
get_cart none = []
get_cart (some items) = items

-- setCart, on a list
abbrev pub set_cart : List Row → Storage
set_cart items = some items

-- makeKey
unfoldable pub make_key : Value → Value → String
make_key product_id sku_id =
    str_append (to_text (number product_id))
      (str_append ":" (to_text (number (or_else sku_id (int 0)))))

-- (x) => x && x.key === key
abbrev pub has_key : Value → Row → Bool
has_key key item = strict_eq (get "key" item) key

-- cart[idx] = f(cart[idx]) at the first item with the key
unfoldable pub update_keyed : Value → (Row → Row) → List Row → List Row
update_keyed key f [] = []
update_keyed key f (x ∷ xs) =
    let rest = update_keyed key f xs in if has_key key x then f x ∷ xs else x ∷ rest

-- Number(v || 0) === 1
abbrev pub is_one : Value → Bool
is_one v = strict_eq (number (or_else v (int 0))) (int 1)

-- The item that addToCart makes of what it is given.
unfoldable pub new_item : Row → Row
new_item payload =
    let product_id = number (get "productId" payload) in
    let sku_id = if truthy (get "skuId" payload) then number (get "skuId" payload) else int 0 in
    ("key", str (make_key product_id sku_id))
    ∷ ("productId", product_id)
    ∷ ("skuId", or_else sku_id null)
    ∷ ("qty", at_least_one (number (or_else (get "qty" payload) (int 1))))
    ∷ ("title", or_else (get "title" payload) (str ""))
    ∷ ("skuTitle", or_else (get "skuTitle" payload) (str ""))
    ∷ ("cover_url", or_else (get "cover_url" payload) (str ""))
    ∷ ("price_cent", number (or_else (get "price_cent" payload) (int 0)))
    ∷ ("is_welfare", int 0)
    ∷ []

-- { ...existing, ...item, qty: mergedQty }
unfoldable pub merged : Row → Row → Row
merged item existing =
    put "qty" (at_least_one (plus (number (or_else (get "qty" existing) (int 0))) (get "qty" item)))
      (spread existing item)

abbrev pub put_item : Option Row → Row → List Row → List Row
put_item none item cart = cart ++ item ∷ []
put_item (some existing) item cart = update_keyed (get "key" item) (merged item) cart

-- addToCart: the storage afterwards. Welfare goods cannot be put into the cart.
unfoldable pub add_to_cart : Row → Storage → Storage
add_to_cart payload storage =
    let cart = get_cart storage in
    if is_one (get "is_welfare" payload)
    then storage
    else (let item = new_item payload in
        set_cart (put_item (find (has_key (get "key" item)) cart) item cart))

-- { ...cart[idx], qty: isWelfare ? 1 : nextQty }
unfoldable pub with_qty : Value → Row → Row
with_qty qty item =
    put "qty"
      (if is_one (get "is_welfare" item)
        then int 1
        else at_least_one (number (or_else qty (int 1))))
      item

abbrev pub set_qty : Option Row → Value → Value → Storage → Storage
set_qty none key qty storage = storage
set_qty (some item) key qty storage = set_cart (update_keyed key (with_qty qty) (get_cart storage))

-- updateQty
unfoldable pub update_qty : Value → Value → Storage → Storage
update_qty key qty storage = set_qty (find (has_key key) (get_cart storage)) key qty storage

-- removeItem
unfoldable pub remove_item : Value → Storage → Storage
remove_item key storage = set_cart (filter (λ x. not (has_key key x)) (get_cart storage))

-- clearCart
abbrev pub clear_cart : Storage → Storage
clear_cart storage = set_cart []

-- items.reduce((sum, it) => sum + Number(it.price_cent || 0) * Number(it.qty || 0), 0), none for NaN
abbrev pub add_numbers : (ℤ → ℤ → ℤ) → Option ℤ → Option ℤ → Option ℤ
add_numbers f (some m) (some n) = some (f m n)
add_numbers f _ _ = none

unfoldable pub total_from : Option ℤ → List Row → Option ℤ
total_from sum [] = sum
total_from sum (it ∷ items) =
    total_from
      (add_numbers ◌+ℤ◌ sum (
        add_numbers ◌*ℤ◌ (to_number (or_else (get "price_cent" it) (int 0)))
          (to_number (or_else (get "qty" it) (int 0)))))
      items

-- What a tap does: it asks whether to remove the item, shows a message, or does nothing more.
pub data Answer : Type 0 where
  quiet : Answer
  asks_removal : Value → Answer
  shows : String → Answer

-- item.is_welfare == 1, on a number or a text
abbrev pub loosely_one : Value → Bool
loosely_one v = strict_eq (number v) (int 1)

abbrev pub less_found : Option Row → Value → Storage → Answer × Storage
less_found none key storage = (quiet, storage)
less_found (some item) key storage =
    let qty = lift_number ◌-ℤ◌ (to_number (or_else (get "qty" item) (int 1))) (some (pos 1)) in
    if loosely_one (get "is_welfare" item)
    then (quiet, storage)
    else if elim qty [ num n ↦ ltb_ℤ n (pos 1) | _ ↦ false ]
    then (asks_removal key, storage)
    else (quiet, update_qty key qty storage)

-- dec, over the items that the page has loaded: those of the storage
unfoldable pub dec : Value → Storage → Answer × Storage
dec key storage = less_found (find (has_key key) (get_cart storage)) key storage

abbrev pub more_found : Option Row → Value → Storage → Answer × Storage
more_found none key storage = (quiet, storage)
more_found (some item) key storage =
    let qty = lift_number ◌+ℤ◌ (to_number (or_else (get "qty" item) (int 1))) (some (pos 1)) in
    if loosely_one (get "is_welfare" item)
    then (quiet, storage)
    else if elim qty [ num n ↦ ltb_ℤ (pos 99) n | _ ↦ false ]
    then (shows "最多购买99件", storage)
    else (quiet, update_qty key qty storage)

-- inc
unfoldable pub inc : Value → Storage → Answer × Storage
inc key storage = more_found (find (has_key key) (get_cart storage)) key storage
