-- ===== src/Js/Objects.antt =====
-- JavaScript objects with scalar fields: own properties in insertion order.
use jtfp_cloudrun.Base.{
  String, ◌≡◌, refl, ◌≢◌, Bool, true, false, List, [], ◌∷◌, if◌then◌else◌, ◌∙◌, str_eq, eq_iff,
  arith, All, Bool-cases, inl, inr,
}
use jtfp_cloudrun.Base.Int.{ℤ}
use jtfp_cloudrun.Js.{Value, undefined, null, nan, bool, num, str}

abbrev pub Row : Type 0
Row = List (String × Value)

-- row[key], undefined where the object has no such property
unfoldable pub get : String → Row → Value
get k [] = undefined
get k ((j, v) ∷ r) = if str_eq j k then v else get k r

-- row[key] = v: in place, or as a new last property
unfoldable pub put : String → Value → Row → Row
put k v [] = (k, v) ∷ []
put k v ((j, w) ∷ r) = if str_eq j k then (k, v) ∷ r else (j, w) ∷ put k v r

-- { ...row, ...updates }
unfoldable pub spread : Row → Row → Row
spread row [] = row
spread row ((k, v) ∷ updates) = spread (put k v row) updates

abbrev is_defined : String × Value → Bool
is_defined (k, undefined) = false
is_defined (k, _) = true

-- JSON.parse(JSON.stringify(row)): a property that is undefined is dropped, NaN becomes null
abbrev json_value : Value → Value
json_value nan = null
json_value v = v

abbrev json_property : String × Value → String × Value
json_property (k, v) = (k, json_value v)

unfoldable pub json_copy : Row → Row
json_copy [] = []
json_copy (p ∷ r) = let rest = json_copy r in if is_defined p then json_property p ∷ rest else rest

pub get-put :
    (k j : String) (v : Value) (r : Row) → get j (put k v r) ≡ (if str_eq k j then v else get j r)
unfolding get put
get-put k j v [] = refl
get-put k j v ((i, w) ∷ r) = ground (arith, eq_iff k j, eq_iff i k, eq_iff i j, get-put k j v r)

-- The keys of an object, and that no key stands in it twice.
abbrev pub HasNot : String → Row → Type 0
HasNot k r = All (λ p. str_eq p.0 k ≡ false) r

abbrev pub IsObject : Row → Type 0
IsObject [] = Unit
IsObject ((k, v) ∷ r) = HasNot k r × IsObject r

pub get-HasNot : (k : String) (r : Row) → HasNot k r → get k r ≡ undefined
unfolding get
get-HasNot k [] h = refl
get-HasNot k ((j, v) ∷ r) h = rw (h.0) (get-HasNot k r h.1)

json_copy-HasNot : (k : String) (r : Row) → HasNot k r → HasNot k (json_copy r)
unfolding json_copy
json_copy-HasNot k [] h = tt
json_copy-HasNot k ((j, undefined) ∷ r) h = json_copy-HasNot k r h.1
json_copy-HasNot k ((j, null) ∷ r) h = (h.0, json_copy-HasNot k r h.1)
json_copy-HasNot k ((j, nan) ∷ r) h = (h.0, json_copy-HasNot k r h.1)
json_copy-HasNot k ((j, bool b) ∷ r) h = (h.0, json_copy-HasNot k r h.1)
json_copy-HasNot k ((j, num b) ∷ r) h = (h.0, json_copy-HasNot k r h.1)
json_copy-HasNot k ((j, str b) ∷ r) h = (h.0, json_copy-HasNot k r h.1)

-- A copy through JSON reads as the object does, but for NaN.
pub get-json_copy : (k : String) (r : Row) → IsObject r → get k (json_copy r) ≡ json_value (get k r)
unfolding get json_copy
get-json_copy k [] o = refl
get-json_copy k ((j, undefined) ∷ r) o = elim (Bool-cases (str_eq j k)) [
  | inl e ↦
      rw e
        (get-HasNot k (json_copy r) (subst_key j k ((eq_iff j k).0 e) (json_copy-HasNot j r o.0)))
  | inr e ↦ rw e (get-json_copy k r o.1)
]
  where
    subst_key : (a b : String) → a ≡ b → HasNot a (json_copy r) → HasNot b (json_copy r)
    subst_key a b e h = rw e at h
get-json_copy k ((j, null) ∷ r) o = ground (arith, get-json_copy k r o.1)
get-json_copy k ((j, nan) ∷ r) o = ground (arith, get-json_copy k r o.1)
get-json_copy k ((j, bool b) ∷ r) o = ground (arith, get-json_copy k r o.1)
get-json_copy k ((j, num b) ∷ r) o = ground (arith, get-json_copy k r o.1)
get-json_copy k ((j, str b) ∷ r) o = ground (arith, get-json_copy k r o.1)

-- A number survives a copy through JSON.
pub get-json_copy_num :
    (k : String) (i : ℤ) (r : Row) → get k r ≡ num i → get k (json_copy r) ≡ num i
unfolding get json_copy
get-json_copy_num k i [] h = absurd (cc)
get-json_copy_num k i ((j, undefined) ∷ r) h = elim (Bool-cases (str_eq j k)) [
  | inl e ↦ absurd (ground (arith, e))
  | inr e ↦ get-json_copy_num k i r (rw e at h)
]
get-json_copy_num k i ((j, null) ∷ r) h = ground (arith, get-json_copy_num k i r)
get-json_copy_num k i ((j, nan) ∷ r) h = ground (arith, get-json_copy_num k i r)
get-json_copy_num k i ((j, bool b) ∷ r) h = ground (arith, get-json_copy_num k i r)
get-json_copy_num k i ((j, num n) ∷ r) h = ground (arith, get-json_copy_num k i r)
get-json_copy_num k i ((j, str t) ∷ r) h = ground (arith, get-json_copy_num k i r)

put-HasNot :
    (i k : String) (v : Value) (r : Row) → str_eq k i ≡ false → HasNot i r → HasNot i (put k v r)
unfolding put
put-HasNot i k v [] e h = (e, tt)
put-HasNot i k v ((j, w) ∷ r) e h = elim (Bool-cases (str_eq j k)) [
  | inl p ↦ rw p (e, h.1)
  | inr p ↦ rw p (h.0, put-HasNot i k v r e h.1)
]

str_eq_comm : (a b : String) → str_eq a b ≡ false → str_eq b a ≡ false
str_eq_comm a b h = ground (arith, eq_iff a b, eq_iff b a)

pub put-IsObject : (k : String) (v : Value) (r : Row) → IsObject r → IsObject (put k v r)
unfolding put
put-IsObject k v [] o = (tt, tt)
put-IsObject k v ((j, w) ∷ r) o = elim (Bool-cases (str_eq j k)) [
  | inl p ↦ rw p (rw ((eq_iff j k).0 p) at o.0, o.1)
  | inr p ↦ rw p (put-HasNot j k v r (str_eq_comm j k p) o.0, put-IsObject k v r o.1)
]

pub spread-IsObject : (r u : Row) → IsObject r → IsObject (spread r u)
unfolding spread
spread-IsObject r [] o = o
spread-IsObject r ((k, v) ∷ u) o = spread-IsObject (put k v r) u (put-IsObject k v r o)

-- A key that the updates do not name keeps its value.
pub get-spread-HasNot : (k : String) (r u : Row) → HasNot k u → get k (spread r u) ≡ get k r
unfolding spread
get-spread-HasNot k r [] h = refl
get-spread-HasNot k r ((j, v) ∷ u) h = get-spread-HasNot k (put j v r) u h.1 ∙ rw (get-put, h.0)

-- A key that the updates name takes their value.
pub get-spread_own :
    (k : String) (r u : Row) → IsObject u → get k u ≢ undefined → get k (spread r u) ≡ get k u
unfolding spread get
get-spread_own k r [] o h = absurd (h refl)
get-spread_own k r ((j, v) ∷ u) o h = elim (Bool-cases (str_eq j k)) [
  | inl e ↦ get-spread-HasNot k (put j v r) u (rw ((eq_iff j k).0 e) at o.0) ∙ rw (get-put, e)
  | inr e ↦ get-spread_own k (put j v r) u o.1 (rw e at h) ∙ rw e
]
