-- ===== src/Store/Table.antt =====
-- The names of the tables: the keys of the store's data, less its metadata.
use jtfp_cloudrun.Base.{ℕ, ◌≡◌, Bool, true, ◌==◌, arith}

pub data Table : Type 0 where
  properties categories users user_identities orders order_items order_change_logs products
        product_skus reviews welfare_codes welfare_code_items admins :
      Table

abbrev index : Table → ℕ
index properties = 0
index categories = 1
index users = 2
index user_identities = 3
index orders = 4
index order_items = 5
index order_change_logs = 6
index products = 7
index product_skus = 8
index reviews = 9
index welfare_codes = 10
index welfare_code_items = 11
index admins = 12

unfoldable pub table_eq : Table → Table → Bool
table_eq t u = index t == index u

pub table_eq_refl : (t : Table) → table_eq t t ≡ true
unfolding table_eq
table_eq_refl t = ground arith

pub table_eq→eq : (t u : Table) → table_eq t u ≡ true → t ≡ u
unfolding table_eq
table_eq→eq t u h = ground arith
