-- ===== src/RateLimit/Tests.antt =====
-- Runs of a limiter of two requests in ten seconds and two keys, and the theorems applied to it.
use unishop_china.Prelude.{◌≤◌, ◌≡◌, refl, ◌&&◌, ◌||◌, is_some, List, [], ◌∷◌, arith, ltb}
use unishop_china.Prelude.Rows.{first?, select, update, count}
use unishop_china.Models.{seconds}
use unishop_china.RateLimit.Limiter
use unishop_china.RateLimit.Limiter.{Config, Entry, Decision, has_key, size, make_room, consume}
use unishop_china.RateLimit.Window.{Request, is_allowed, logged_in_window}
use unishop_china.RateLimit.Served.{Served, cleared, served, consume_bounded, consume_decides}

abbrev config : Config
config = record { max_requests = 2; window_seconds = 10; max_keys = 2 }

program : Unit {0}
unfolding Limiter.last? Limiter.ceil_seconds Limiter.is_expired Limiter.make_room
    Limiter.drop_expired Limiter.least_wait Limiter.oldest_wait Limiter.admit Limiter.consume_new
    Limiter.consume seconds select first? update count
program = tt

-- Two requests of the key 7, at 1 s and at 4 s.
abbrev one : List Entry
one = record { key = 7; requests = 1000000 ∷ [] } ∷ []

abbrev two : List Entry
two = record { key = 7; requests = 1000000 ∷ 4000000 ∷ [] } ∷ []

abbrev log : List Request
log = record { key = 7; time = 4000000 } ∷ record { key = 7; time = 1000000 } ∷ []

consume_second : consume config 7 4000000 one ≡ (Decision.allowed, two)
unfolding program
consume_second = refl

-- The third waits until the first has left the window, at 11 s.
consume_third : consume config 7 5500000 two ≡ (Decision.limited 6, two)
unfolding program
consume_third = refl

-- A new key finds no room as long as two keys are in their windows.
consume_crowded :
    consume config 9 6000000 (record { key = 8; requests = 5000000 ∷ [] } ∷ two)
    ≡ (Decision.limited 8, record { key = 8; requests = 5000000 ∷ [] } ∷ two)
unfolding program
consume_crowded = refl

run : Served config 4000000 two log
unfolding program
run =
    served 7 1000000 4000000 one (record { key = 7; time = 1000000 } ∷ []) (omega arith)
      (served 7 0 1000000 [] [] (omega arith) (cleared 0))

consume_bounded_example : (logged_in_window config 7 4000000 log ≤ 2) × (size two ≤ 2)
consume_bounded_example = consume_bounded config 7 4000000 two log run

consume_decides_example : is_allowed (consume config 7 5500000 two).0 ≡ (
    ltb (logged_in_window config 7 5500000 log) 2
    && (is_some (first? (has_key 7) two)
        || ltb (count (λ e. ltb 0 (logged_in_window config e.key 5500000 log)) two) 2))
consume_decides_example =
    consume_decides config 7 4000000 5500000 two log (omega arith) (omega arith) run
