-- ===== src/Tests/Pages.antt =====
-- The theorems of Pagination, on three keys.
use gears.Base.{ℕ, ◌≡◌, [], ◌∷◌, length, arith}
use gears.Base.Order.{Bytes}
use gears.Pagination.Keys.{followed, followed-all}

abbrev one_byte : ℕ → Bytes
one_byte n = n ∷ []

followed-all_example : followed length one_byte 3 (2 ∷ []) 2 (2 ∷ 3 ∷ 5 ∷ []) ≡ 2 ∷ 3 ∷ 5 ∷ []
followed-all_example =
    followed-all length one_byte 2 2 (3 ∷ 5 ∷ []) (omega arith)
      (((λ e. cc), ((λ e. cc), tt)), (((λ e. cc), tt), (tt, tt)))
