-- ===== src/Store/Machine/Copies.antt =====
-- Identifiers after a copy through JSON.
use jtfp_cloudrun.Base.{ℕ, ◌≡◌, ◌≢◌, sym, ◌∙◌, List, [], ◌∷◌, map, All}
use jtfp_cloudrun.Base.Int.{pos}
use jtfp_cloudrun.Js.Objects.{Row, get, json_copy, get-json_copy_num}
use jtfp_cloudrun.Store.Table.{Table}
use jtfp_cloudrun.Store.State.{StoreData, copy_data, id_or_one}
use jtfp_cloudrun.Store.Ids.{HasIdBelow}
use jtfp_cloudrun.Store.Integrity.{AreIds}

HasIdBelow-json_copy : (n : ℕ) (r : Row) → HasIdBelow n r → HasIdBelow n (json_copy r)
HasIdBelow-json_copy n r (i, e, p, q) = (i, get-json_copy_num "id" (pos i) r e, p, q)

id_copied : (n : ℕ) (r : Row) → HasIdBelow n r → get "id" (json_copy r) ≡ get "id" r
id_copied n r (i, e, p, q) = get-json_copy_num "id" (pos i) r e ∙ sym e

pub AreIds-json_copy : (n : ℕ) (rs : List Row) → AreIds n rs → AreIds n (map json_copy rs)
AreIds-json_copy n [] h = (tt, tt)
AreIds-json_copy n (r ∷ rs) h =
    let rest = AreIds-json_copy n rs (h.0.1, h.1.1) in
    ((HasIdBelow-json_copy n r h.0.0, rest.0), (differ rs h.0.1 h.1.0, rest.1))
  where
    differ :
        (qs : List Row)
        → All (HasIdBelow n) qs
        → All (λ q. get "id" q ≢ get "id" r) qs
        → All (λ q. get "id" q ≢ get "id" (json_copy r)) (map json_copy qs)
    differ [] b d = tt
    differ (q ∷ qs) b d =
        (λ e. d.0 (sym (id_copied n q b.0) ∙ (e ∙ id_copied n r h.0.0)), differ qs b.1 d.1)

-- The identifiers of the store's data.
abbrev pub IsData : StoreData → Type 0
IsData d = (t : Table) → AreIds (id_or_one (d.meta.next_ids t)) (d.tables t)

pub copy_data-IsData : (d : StoreData) → IsData d → IsData (copy_data d)
unfolding copy_data
copy_data-IsData d h t = AreIds-json_copy _ (d.tables t) (h t)
