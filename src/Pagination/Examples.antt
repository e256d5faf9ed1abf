-- ===== src/Pagination/Examples.antt =====
-- A list of three rows read in pages of two, as src/common/pagination/page.ts cuts it.
use flyer_g_be.Base.{ℕ, ◌+◌, ◌≡◌, refl, ltb, Bool, List, [], ◌∷◌, map, filter, none, some, arith}
use flyer_g_be.Pagination.{list, to_page}
use flyer_g_be.Pagination.Walk.{IsIncreasing, walk, walk-filter}

abbrev rows : List ℕ
rows = 1 ∷ 4 ∷ 6 ∷ 9 ∷ []

abbrev above_two : ℕ → Bool
above_two n = ltb 2 n

rows-IsIncreasing : IsIncreasing (λ n. n) (filter above_two rows)
rows-IsIncreasing = ((omega arith, (omega arith, tt)), ((omega arith, tt), (tt, tt)))

first_page :
    list (λ n. n) (λ n. n + 100) above_two 2 50 none rows
    ≡ record { items = 104 ∷ 106 ∷ []; next_cursor = some 6; total_count = 3; server_time = 50 }
unfolding list to_page
first_page = refl

walk-filter_example :
    walk (λ n. n) (λ n. n + 100) 4 2 50 above_two none rows
    ≡ map (λ n. n + 100) (filter above_two rows)
walk-filter_example =
    walk-filter (λ n. n) (λ n. n + 100) 4 1 50 above_two rows rows-IsIncreasing (omega arith)
