-- ===== src/RateLimit/Retry.antt =====
-- The wait that a refused request is told is long enough.
use unishop_china.Prelude.{ℕ, ◌+◌, ◌≤◌, ◌<◌, ◌≡◌, ◌∙◌, ap, max, true, some, List, [], ◌∷◌, arith}
use unishop_china.Prelude.Rows.{first?}
use unishop_china.Prelude.Rows.Counting.{first?-update, first?-holds, All-first?}
use unishop_china.Models.{seconds}
use unishop_china.RateLimit.Limiter.{
  Config, Entry, Decision, has_key, length, window, drop_expired, oldest_wait, ceil_seconds,
  set_requests, admit, consume,
}
use unishop_china.RateLimit.Deque.{drop_expired-length}
use unishop_china.RateLimit.Window.{Request, is_allowed, Holds}
use unishop_china.RateLimit.Served.{Served, Served-Tracks}

module _ (config : Config) where
  -- After the wait the oldest request is popped.
  popped :
      (now later wait : ℕ) (current : List ℕ)
      → 1 ≤ length current
      → wait ≡ max 1 (ceil_seconds (oldest_wait config now current))
      → now + seconds wait ≤ later
      → length (drop_expired config later current) < length current
  unfolding drop_expired oldest_wait ceil_seconds seconds
  popped now later wait [] some_left e h = absurd (ground arith)
  popped now later wait (t ∷ ts) some_left e h =
      let gone : t + window config ≤ later = omega arith in
      ground (arith, gone, drop_expired-length config later ts)

  refused :
      (key now wait : ℕ) (entries entries' : List Entry) (e : Entry)
      → first? (has_key key) entries ≡ some e
      → consume config key now entries ≡ (Decision.limited wait, entries')
      → (config.max_requests ≤ length (drop_expired config now e.requests))
        × (wait
            ≡ max 1 (ceil_seconds (oldest_wait config now (drop_expired config now e.requests))))
        × (entries' ≡ set_requests config key (drop_expired config now e.requests) entries)
  unfolding consume admit
  refused key now wait entries entries' e found limited = (ground arith, ground arith, ground arith)

  allows :
      (key later : ℕ) (current : List ℕ) (entries : List Entry) (e : Entry)
      → first? (has_key key) entries ≡ some e
      → length (drop_expired config later current) < config.max_requests
      → is_allowed (consume config key later (set_requests config key current entries)).0 ≡ true
  unfolding consume admit
  allows key later current entries e found room = ground (
    arith,
    first?-holds (has_key key) entries e found,
    first?-update (has_key key) (has_key key) (λ (x : Entry). record x { requests = current })
        entries e (λ x. ground arith) found,
  )

  -- Retrying pays off: where a request of a known key is refused, with a wait, the key's next
  -- request is allowed if it comes at least that many seconds later, in every run of a limiter
  -- whose `max_requests` is positive, if no other request comes between.
  retry_allows :
      (key before now later wait : ℕ) (entries entries' : List Entry) (log : List Request)
      (e : Entry)
      → 1 ≤ config.max_requests
      → Served config before entries log
      → first? (has_key key) entries ≡ some e
      → consume config key now entries ≡ (Decision.limited wait, entries')
      → now + seconds wait ≤ later
      → is_allowed (consume config key later entries').0 ≡ true
  retry_allows key before now later wait entries entries' log e positive run found limited h =
      let (full, waits, state) = refused key now wait entries entries' e found limited in
      let holds =
        All-first? (Holds config before) (has_key key) entries e
          (Served-Tracks config before entries log run).holds found in
      let current = drop_expired config now e.requests in
      ap (λ (x : List Entry). is_allowed (consume config key later x).0) state
      ∙ allows key later current entries e found (
          omega (
            arith,
            positive,
            full,
            holds.0,
            drop_expired-length config now e.requests,
            popped now later wait current (omega (arith, positive, full)) waits h,
          ))
