-- ===== src/Paging/Tests.antt =====
-- A walk over the pages of three rows.
use unishop_china.Prelude.{ℕ, ◌≡◌, refl, false, none, List, [], ◌∷◌, arith}
use unishop_china.Prelude.Rows.{select}
use unishop_china.Prelude.Rows.Sorting.{insert, order_by}
use unishop_china.Paging.Keyset.{Position, before, precedes, is_after, page, cut, list_page, walk}
use unishop_china.Paging.Order.{Apart}
use unishop_china.Paging.Walk.{walk-eq-order_by}

program : Unit {0}
unfolding select insert order_by before precedes is_after page cut list_page walk
program = tt

abbrev row : ℕ → ℕ → Position
row value slug = record { value = value; slug = slug }

abbrev rows : List Position
rows = row 5 1 ∷ row 9 2 ∷ row 5 3 ∷ []

newest_first : walk (λ r. r) false 4 2 none rows ≡ row 9 2 ∷ row 5 3 ∷ row 5 1 ∷ []
unfolding program
newest_first = refl

apart : Apart (precedes (λ r. r) false) rows
unfolding program
apart = ((refl, (refl, tt)), ((refl, tt), (tt, tt)))

walk-eq-order_by_example :
    walk (λ r. r) false 4 2 none rows ≡ order_by (precedes (λ r. r) false) rows
walk-eq-order_by_example = walk-eq-order_by (λ r. r) false rows apart 2 (omega arith)
