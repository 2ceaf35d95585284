-- ===== src/Repositories/Paging/Laws.antt =====
-- Pages of the rows of a listing.
use native.Mathlib.Nat.{zero-mul, suc-mul}
use jtfp_cloudrun.Base.{
  ℕ, zero, suc, ◌+◌, ◌*◌, ◌≤◌, min, ◌≡◌, refl, ap, ◌∙◌, some, List, [], ◌++◌, length, take, drop,
  arith,
}
use jtfp_cloudrun.Base.Int.{ℤ, pos, ◌+ℤ◌, ◌-ℤ◌, ◌*ℤ◌}
use jtfp_cloudrun.Base.Slice.{slice-pos, take-add, take_all}
use jtfp_cloudrun.Js.Objects.{Row}
use jtfp_cloudrun.Repositories.Paging.{page_of, page_size, int_or}

-- The size of a page where `n` rows are asked for: at most 100.
page_size-pos : (n : ℕ) → page_size (some (pos (suc n))) ≡ pos (min (suc n) 100)
unfolding page_size
page_size-pos n = ground arith

offset-pos : (k n : ℕ) → (pos (suc k) -ℤ pos 1) *ℤ pos n ≡ pos (k * n)
unfolding ◌-ℤ◌ ◌*ℤ◌
offset-pos k n = ground arith

int_or-suc : (k : ℕ) (d : ℤ) → int_or (some (pos (suc k))) d ≡ pos (suc k)
int_or-suc k d = ground arith

add-pos : (m n : ℕ) → pos m +ℤ pos n ≡ pos (m + n)
unfolding ◌+ℤ◌
add-pos m n = ground arith

-- Page k + 1, where n + 1 rows a page are asked for, holds the rows behind the first k pages, cut
-- to the size of a page, which is n + 1 and 100 at most.
pub page_of-pos :
    (k n : ℕ) (rs : List Row)
    → page_of (some (pos (suc k))) (some (pos (suc n))) rs
      ≡ take (min (suc n) 100) (drop (k * min (suc n) 100) rs)
unfolding page_of
page_of-pos k n rs =
    rw (page_size-pos, int_or-suc, offset-pos, add-pos)
      (slice-pos (k * min (suc n) 100) (min (suc n) 100) rs)

-- Pages 1 to k put together, where n + 1 rows a page are asked for.
unfoldable pub pages : ℕ → ℕ → List Row → List Row
pages zero n rs = []
pages (suc k) n rs = pages k n rs ++ page_of (some (pos (suc k))) (some (pos (suc n))) rs

pub pages-take : (k n : ℕ) (rs : List Row) → pages k n rs ≡ take (k * min (suc n) 100) rs
unfolding pages
pages-take zero n rs = rw zero-mul refl
pages-take (suc k) n rs =
    rw (pages-take k n rs, page_of-pos k n rs)
      (take-add (k * min (suc n) 100) (min (suc n) 100) rs
        ∙ ap (λ m. take m rs) (rw suc-mul (omega arith)))

-- Where n + 1 rows a page are asked for, and k pages of n + 1 rows and 100 at most have room for
-- all rows, pages 1 to k put together are the rows, each once and in their order.
pub pages-all : (k n : ℕ) (rs : List Row) → length rs ≤ k * min (suc n) 100 → pages k n rs ≡ rs
pages-all k n rs h = pages-take k n rs ∙ take_all (k * min (suc n) 100) rs h
