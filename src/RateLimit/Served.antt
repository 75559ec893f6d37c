-- ===== src/RateLimit/Served.antt =====
-- The limiter over a whole run, against the ideal sliding window: a log of the admitted requests
-- that forgets nothing.
use unishop_china.Prelude.{ℕ, ◌≤◌, ◌≡◌, ◌&&◌, ◌||◌, is_some, List, [], arith, ltb, refl, ap, ◌∙◌}
use unishop_china.Prelude.Rows.{first?, count}
use unishop_china.RateLimit.Limiter.{Config, Entry, has_key, size, consume}
use unishop_china.RateLimit.Deque.{in_window, count-le_length}
use unishop_china.RateLimit.Window.{
  Request, requests_of, is_allowed, logged, logged_in_window, Tracks, later-Tracks,
}
use unishop_china.RateLimit.Capacity.{size-make_room}
use unishop_china.RateLimit.Admission.{consume-Tracks, consume_allows, requests-length}

-- The states of a limiter and the requests that it has admitted since it was made or cleared, at
-- the times of a clock that does not run backwards.
pub data Served (config : Config) : ℕ → List Entry → List Request → Type 0 where
  cleared : (now : ℕ) → Served config now [] []
  served :
      (key now later : ℕ) (entries : List Entry) (log : List Request)
      → now ≤ later
      → Served config now entries log
      → Served config later
          (consume config key later entries).1
          (logged (consume config key later entries).0 key later log)

module _ (config : Config) where
  pub Served-Tracks :
      (now : ℕ) (entries : List Entry) (log : List Request)
      → Served config now entries log
      → Tracks config now entries log
  unfolding count first?
  Served-Tracks now entries log (cleared t) = record {
    unique = λ k. omega arith;
    sized = omega arith;
    holds = tt;
    tracks = λ k later g. refl;
  }
  Served-Tracks now entries log (served key before t earlier old h run) =
      consume-Tracks config key t earlier old
        (later-Tracks config before t earlier old h (Served-Tracks before earlier old run))

  -- In every run the limiter has admitted at most `max_requests` requests of each key within the
  -- window that ends now, and it remembers at most `max_keys` keys.
  pub consume_bounded :
      (key now : ℕ) (entries : List Entry) (log : List Request)
      → Served config now entries log
      → (logged_in_window config key now log ≤ config.max_requests)
        × (size entries ≤ config.max_keys)
  consume_bounded key now entries log run =
      let t = Served-Tracks now entries log run in
      (
        omega (
          arith,
          t.tracks key now (omega arith),
          count-le_length (in_window config now) (requests_of key entries),
          requests-length config key now entries t.holds,
        ),
        t.sized,
      )

  -- A request is allowed exactly if the key has fewer than `max_requests` admitted requests in the
  -- window that ends now and either is known or finds fewer than `max_keys` known keys that were
  -- admitted a request in that window, in every run of a limiter whose `max_requests` is positive.
  pub consume_decides :
      (key now later : ℕ) (entries : List Entry) (log : List Request)
      → 1 ≤ config.max_requests
      → now ≤ later
      → Served config now entries log
      → is_allowed (consume config key later entries).0 ≡ (
          ltb (logged_in_window config key later log) config.max_requests
          && (is_some (first? (has_key key) entries)
              || ltb
                  (count (λ e. ltb 0 (logged_in_window config e.key later log)) entries)
                  config.max_keys))
  consume_decides key now later entries log positive h run =
      let t = later-Tracks config now later entries log h (Served-Tracks now entries log run) in
      consume_allows config key later entries log positive t
      ∙ ap
          (λ n.
            ltb (logged_in_window config key later log) config.max_requests
            && (is_some (first? (has_key key) entries) || ltb n config.max_keys))
          (size-make_room config later entries log t)
