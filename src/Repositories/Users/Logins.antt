-- ===== src/Repositories/Users/Logins.antt =====
-- A login with an identity that is known.
use jtfp_cloudrun.Base.{
  String, ◌≡◌, refl, ap, ◌∙◌, false, Option, some, [], ◌∷◌, find, if◌then◌else◌, Bool-cases, inl,
  inr,
}
use jtfp_cloudrun.Js.{Value, truthy}
use jtfp_cloudrun.Js.Objects.{Row, get}
use jtfp_cloudrun.Store.Table.{Table, table_eq, users, user_identities}
use jtfp_cloudrun.Store.State.{Process, rows, load_data}
use jtfp_cloudrun.Store.Rows
use jtfp_cloudrun.Store.Rows.{has_id}
use jtfp_cloudrun.Store.Views.{rows-load_data}
use jtfp_cloudrun.Store.Changes.{find_one-rows, find_by_id-rows, rows-update}
use jtfp_cloudrun.Store.Transaction.{returns}
use jtfp_cloudrun.Repositories.Users.{
  Login, is_identity, known_or_linked, find_or_create_user_by_identity,
}

-- The user of an identifier, as the process would find it.
abbrev pub user_at : Value → Process → Option Row
user_at id s = find (has_id id) (rows users s)

found_user :
    (p : Login) (id : Value) (now : String) (s : Process) (user : Row)
    → user_at id s ≡ some user
    → known_or_linked (Rows.find_by_id users id now s).0 p now (Rows.find_by_id users id now s).1
      ≡ (returns user, load_data now s)
found_user p id now s user h = rw (find_by_id-rows, h) refl

module _ (p : Login) (now : String) (s : Process) (identity : Row) where
  -- The process after the session key is renewed.
  renewed : Process
  renewed =
      if truthy p.session_key
      then (Rows.update user_identities (get "id" identity) (("session_key", p.session_key) ∷ [])
          now (load_data now s)).1
      else load_data now s

  rows-renewed : (t : Table) → table_eq user_identities t ≡ false → rows t renewed ≡ rows t s
  unfolding renewed
  rows-renewed t h = elim (Bool-cases (truthy p.session_key)) [
    | inl e ↦ rw (e, rows-update, h) (rows-load_data t now s)
    | inr e ↦ rw e (rows-load_data t now s)
  ]

  -- A login whose identity is stored, with a user that is stored too, returns that user, and writes
  -- to no table but that of the identities.
  pub find_or_create_user_by_identity-known :
      (user : Row) (t : Table)
      → find (is_identity p) (rows user_identities s) ≡ some identity
      → user_at (get "user_id" identity) s ≡ some user
      → table_eq user_identities t ≡ false
      → ((find_or_create_user_by_identity p now s).0 ≡ returns user)
        × (rows t (find_or_create_user_by_identity p now s).1 ≡ rows t s)
  unfolding find_or_create_user_by_identity renewed table_eq
  find_or_create_user_by_identity-known user t known stored other =
      let login =
        found_user p (get "user_id" identity) now renewed user
          (ap (find (has_id (get "user_id" identity))) (rows-renewed users refl) ∙ stored) in
      rw (find_one-rows, known)
        (
          ap (λ r. r.0) login,
          ap (λ r. rows t r.1) login ∙ rows-load_data t now renewed ∙ rows-renewed t other,
        )
