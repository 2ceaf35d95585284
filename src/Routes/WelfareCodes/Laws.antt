-- ===== src/Routes/WelfareCodes/Laws.antt =====
-- Validation of a welfare code, and a request to use it.
use jtfp_cloudrun.Base.{
  ℕ, suc, ◌<◌, ◌≤◌, String, ◌≡◌, refl, ap, true, false, ◌&&◌, some, [], ◌∷◌, arith, Bool-cases,
  Option-cases, inl, inr, ◌⊎◌,
}
use jtfp_cloudrun.Js.{Value, bool, str, int, strict_eq, truthy, js_lt}
use jtfp_cloudrun.Js.Objects.{Row, get}
use jtfp_cloudrun.Base.Int.{pos}
use jtfp_cloudrun.Store.Table.{Table}
use jtfp_cloudrun.Store.State.{Process, rows, load_data}
use jtfp_cloudrun.Store.Views.{rows-load_data}
use jtfp_cloudrun.Store.Changes.{find_one-rows}
use jtfp_cloudrun.Store.Ids.{strict_eq-num}
use jtfp_cloudrun.Store.Integrity.{IsWellFormed, load_data-IsWellFormed}
use jtfp_cloudrun.Repositories.WelfareCodes.{
  validate_code, validate, find_by_code, is_used_up, valid, invalid,
}
use jtfp_cloudrun.Http.{parsed, sent, status_json}
use jtfp_cloudrun.Routes.WelfareCodes.{post_use, use_reply}
use jtfp_cloudrun.Repositories.WelfareCodes.Usage.{
  code_at, HasUses, used_row, used_up, use_code-counts,
}

-- The code can be used at a time: it is enabled, has uses left, and the time is within its dates.
pub record IsUsable (now : String) (wc : Row) : Type 0 where
  pub enabled : get "status" wc ≡ int 1
  pub has_uses : is_used_up wc ≡ false
  pub started : (truthy (get "valid_from" wc) && js_lt (str now) (get "valid_from" wc)) ≡ false
  pub not_ended : (truthy (get "valid_to" wc) && js_lt (get "valid_to" wc) (str now)) ≡ false

validate-valid :
    (now : String) (wc found : Row) → validate now wc ≡ valid found → (found ≡ wc) × IsUsable now wc
unfolding validate
validate-valid now wc found h = elim (Bool-cases (strict_eq (get "status" wc) (int 1))) [
  | inr a ↦ absurd (ground (arith, h, a))
  | inl a ↦ elim (Bool-cases (is_used_up wc)) [
    | inl b ↦ absurd (ground (arith, h, a, b))
    | inr b ↦
        elim (Bool-cases (truthy (get "valid_from" wc) && js_lt (str now) (get "valid_from" wc))) [
          | inl c ↦ absurd (ground (arith, h, a, b, c))
          | inr c ↦
              elim (Bool-cases
                (truthy (get "valid_to" wc) && js_lt (get "valid_to" wc) (str now))) [
                  | inl d ↦ absurd (ground (arith, h, a, b, c, d))
                  | inr d ↦ (
                    ground (arith, h, a, b, c, d),
                    record {
                      enabled = (strict_eq-num (get "status" wc) (pos 1)).0 a;
                      has_uses = b;
                      started = c;
                      not_ended = d;
                    },
                  )
                ]
        ]
  ]
]

module _ (code : Value) (now : String) (s : Process) (wc : Row) where
  -- Validation calls valid only a code that is stored, enabled, not used up, and within its dates,
  -- and gives the stored row.
  pub validate_code-valid :
      (validate_code code now s).0 ≡ valid wc → (code_at code s ≡ some wc) × IsUsable now wc
  unfolding validate_code find_by_code
  validate_code-valid h = elim (Option-cases (code_at code s)) [
    | inl e ↦ absurd (cc (rw (find_one-rows, e) at h))
    | inr (stored, e) ↦
        let (same, usable) = validate-valid now stored wc (rw (find_one-rows, e) at h) in
        rw same (e, usable)
  ]

  -- Validation calls valid every stored code that is enabled, not used up, and within its dates.
  pub validate_code-usable :
      code_at code s ≡ some wc → IsUsable now wc → (validate_code code now s).0 ≡ valid wc
  unfolding validate_code find_by_code validate
  validate_code-usable e u =
      rw (find_one-rows, e) (rw (u.enabled, u.has_uses, u.started, u.not_ended) refl)

pub HasUses-lt :
    (now : String) (wc : Row) (used total : ℕ)
    → HasUses wc used total
    → IsUsable now wc
    → used < total
HasUses-lt now wc used total h u = elim (le_or_lt used total) [
  | inl l ↦ l
  | inr l ↦ absurd (ground (arith, used_up h l, u.has_uses))
]
  where
    le_or_lt : (a b : ℕ) → (a < b) ⊎ (b ≤ a)
    le_or_lt a b = omega arith

validate_code-state :
    (code : Value) (now : String) (s : Process) → (validate_code code now s).1 ≡ load_data now s
unfolding validate_code find_by_code
validate_code-state code now s = rw find_one-rows refl

-- In a well-formed process, a request to use a code that is stored, enabled, not used up and within
-- its dates succeeds, and the code's count is one more.
pub post_use-counts :
    (body : Row) (now : String) (s : Process) (wc : Row) (used total : ℕ)
    → IsWellFormed s
    → code_at (get "code" body) s ≡ some wc
    → HasUses wc used total
    → IsUsable now wc
    → ((post_use (parsed body) now s).0 ≡ use_reply true)
      × (code_at (get "code" body) (post_use (parsed body) now s).1
          ≡ some (used_row wc (suc used) now))
unfolding post_use
post_use-counts body now s wc used total w e h u =
    let (success, after) =
      use_code-counts (get "code" body) now (load_data now s) wc used total
        (load_data-IsWellFormed now s w) (rw rows-load_data e) h
        (HasUses-lt now wc used total h u) in
    rw (validate_code-usable (get "code" body) now s wc e u, validate_code-state)
      (ap use_reply success, after)

-- A request to use a code that is not valid is answered with 400, and every table is as it was.
pub post_use-invalid :
    (body : Row) (now : String) (s : Process) (message : String) (t : Table)
    → (validate_code (get "code" body) now s).0 ≡ invalid message
    → ((post_use (parsed body) now s).0
        ≡ sent (status_json 400 (("valid", bool false) ∷ ("message", str message) ∷ [])))
      × (rows t (post_use (parsed body) now s).1 ≡ rows t s)
unfolding post_use
post_use-invalid body now s message t h = rw (h, validate_code-state) (refl, rows-load_data t now s)
