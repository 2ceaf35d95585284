-- ===== src/Js.antt =====
-- The JavaScript values that a record's fields hold, the operators that the program applies to
-- them, and objects as association lists of own properties in insertion order.
-- Numbers are integers and NaN: fractions are outside the model, and so are nested objects (the
-- store keeps those as JSON texts). A text counts as a number if it is empty or all digits; signs,
-- spaces, fractions and exponents inside a text are outside the model.
pub mod Text
pub mod Objects
use Prim.Native.String.{◌++◌ as str_append}
use jtfp_cloudrun.Base.{
  ℕ, zero, suc, ◌+◌, ◌*◌, String, Bool, true, false, not, ◌&&◌, ◌||◌, Option, none, some, List, [],
  ◌∷◌, if◌then◌else◌, str_eq, leb, ◌==◌,
}
use jtfp_cloudrun.Base.Int.{ℤ, pos, negsuc, ◌+ℤ◌, ◌-ℤ◌, leb_ℤ, ltb_ℤ, eq_ℤ}
use Text.{decimal, leb_text, print_ℤ, includes}

pub data Value : Type 0 where
  undefined null nan : Value
  bool : Bool → Value
  num : ℤ → Value
  str : String → Value

-- a === b
abbrev pub strict_eq : Value → Value → Bool
strict_eq undefined undefined = true
strict_eq null null = true
strict_eq (bool true) (bool b) = b
strict_eq (bool false) (bool b) = not b
strict_eq (num m) (num n) = eq_ℤ m n
strict_eq (str s) (str t) = str_eq s t
strict_eq _ _ = false

-- !!a
abbrev pub truthy : Value → Bool
truthy undefined = false
truthy null = false
truthy nan = false
truthy (bool b) = b
truthy (num n) = not (eq_ℤ n (pos 0))
truthy (str s) = not (str_eq s "")

-- a || b
abbrev pub or_else : Value → Value → Value
or_else a b = if truthy a then a else b

-- a ?? b
abbrev pub nullish : Value → Value → Value
nullish undefined b = b
nullish null b = b
nullish a b = a

-- ToNumber, with `none` for NaN
unfoldable pub to_number : Value → Option ℤ
unfolding decimal
to_number undefined = none
to_number null = some (pos 0)
to_number nan = none
to_number (bool b) = some (if b then pos 1 else pos 0)
to_number (num n) = some n
to_number (str s) = decimal s

abbrev pub numbers : (ℤ → ℤ → Bool) → Option ℤ → Option ℤ → Bool
numbers test (some m) (some n) = test m n
numbers test _ _ = false

-- a <= b: two texts by their characters, all else by number
unfoldable pub js_le : Value → Value → Bool
unfolding to_number leb_text
js_le (str s) (str t) = leb_text s t
js_le a b = numbers leb_ℤ (to_number a) (to_number b)

-- a < b
unfoldable pub js_lt : Value → Value → Bool
unfolding to_number leb_text
js_lt (str s) (str t) = not (leb_text t s)
js_lt a b = numbers ltb_ℤ (to_number a) (to_number b)

abbrev pub of_number : Option ℤ → Value
of_number none = nan
of_number (some n) = num n

abbrev pub lift_number : (ℤ → ℤ → ℤ) → Option ℤ → Option ℤ → Value
lift_number f (some m) (some n) = num (f m n)
lift_number f _ _ = nan

abbrev pub to_text : Value → String
unfolding print_ℤ
to_text undefined = "undefined"
to_text null = "null"
to_text nan = "NaN"
to_text (bool b) = if b then "true" else "false"
to_text (num n) = print_ℤ n
to_text (str s) = s

-- a + b: a text on either side makes it a concatenation
unfoldable pub js_add : Value → Value → Value
unfolding to_number to_text
js_add (str s) b = str (str_append s (to_text b))
js_add a (str t) = str (str_append (to_text a) t)
js_add a b = lift_number ◌+ℤ◌ (to_number a) (to_number b)

-- a - b
unfoldable pub js_sub : Value → Value → Value
unfolding to_number
js_sub a b = lift_number ◌-ℤ◌ (to_number a) (to_number b)

-- A whole number, as a field's value.
abbrev pub int : ℕ → Value
int n = num (pos n)

-- The text that a value is; a field that is to hold a text and does not counts as the empty text.
abbrev pub text_of : Value → String
text_of (str s) = s
text_of _ = ""

-- a.includes(b) on two texts. (On anything else the program throws, or `?.` gives a false value.)
unfoldable pub value_includes : Value → Value → Bool
unfolding includes
value_includes (str s) (str part) = includes s part
value_includes _ _ = false

-- a - b > 0, by number
unfoldable pub exceeds : Value → Value → Bool
exceeds a b = numbers (λ m n. ltb_ℤ n m) (to_number a) (to_number b)
