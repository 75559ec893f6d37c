-- ===== src/RateLimit/Limiter.antt =====
-- `InMemoryRateLimiter`, method by method. A time is a number of microseconds of the monotonic
-- clock. The dictionary of keys is a list of entries, whose order the code does not observe.
use unishop_china.Prelude.{
  ℕ, suc, ◌+◌, ◌-◌, ◌/◌, max, min, Bool, true, not, Option, none, some, List, [], ◌∷◌, ◌++◌, leb,
  ◌==◌, if◌then◌else◌,
}
use unishop_china.Prelude.Rows.{select, first?, update, count}
use unishop_china.Models.{seconds}

pub record Config : Type 0 where
  pub max_requests : ℕ
  pub window_seconds : ℕ
  pub max_keys : ℕ

-- A key with the times of its admitted requests, oldest first.
pub record Entry : Type 0 where
  pub key : ℕ
  pub requests : List ℕ

-- `RateLimitDecision`: allowed, or not, with the seconds to wait.
pub data Decision : Type 0 where
  allowed : Decision
  limited : ℕ → Decision

abbrev pub has_key : ℕ → Entry → Bool
has_key key e = e.key == key

abbrev pub length : List ℕ → ℕ
length [] = 0
length (t ∷ ts) = suc (length ts)

-- `len(self._requests)`
abbrev pub size : List Entry → ℕ
size entries = count (λ e. true) entries

-- `requests[-1]`
unfoldable pub last? : List ℕ → Option ℕ
last? [] = none
last? (t ∷ ts) = elim (last? ts) [ none ↦ some t | some u ↦ some u ]

-- `math.ceil` of microseconds in seconds.
unfoldable pub ceil_seconds : ℕ → ℕ
ceil_seconds n = (n + 999999) / 1000000

module _ (config : Config) where
  abbrev pub window : ℕ
  window = seconds config.window_seconds

  -- `not requests or requests[-1] <= cutoff`
  unfoldable pub is_expired : ℕ → Entry → Bool
  is_expired now e = elim (last? e.requests) [ none ↦ true | some t ↦ leb (t + window) now ]

  -- `_make_room_for_key`
  unfoldable pub make_room : ℕ → List Entry → List Entry
  make_room now entries = select (λ e. not (is_expired now e)) entries

  -- The loop that pops expired requests from the front.
  unfoldable pub drop_expired : ℕ → List ℕ → List ℕ
  drop_expired now [] = []
  drop_expired now (t ∷ ts) =
      let rest = drop_expired now ts in if leb (t + window) now then rest else t ∷ ts

  -- The time until an entry expires, counted from its last request; 0 for an empty one.
  abbrev pub entry_wait : ℕ → Entry → ℕ
  entry_wait now e = elim (last? e.requests) [ none ↦ 0 | some t ↦ (t + window) - now ]

  -- The least of these times; 0 where there is no entry.
  unfoldable pub least_wait : ℕ → List Entry → ℕ
  least_wait now [] = 0
  least_wait now (e ∷ []) = entry_wait now e
  least_wait now (e ∷ (f ∷ entries)) = min (entry_wait now e) (least_wait now (f ∷ entries))

  -- The time until the oldest request leaves the window; there is one where `max_requests` is
  -- positive.
  unfoldable pub oldest_wait : ℕ → List ℕ → ℕ
  oldest_wait now [] = 0
  oldest_wait now (t ∷ ts) = (t + window) - now

  abbrev pub set_requests : ℕ → List ℕ → List Entry → List Entry
  set_requests key requests entries =
      update (has_key key) (λ e. record e { requests = requests }) entries

  -- The end of `consume`, with the requests of the key that have not expired.
  unfoldable pub admit : ℕ → ℕ → List ℕ → List Entry → Decision × List Entry
  admit key now current entries =
      if leb config.max_requests (length current)
      then (
        Decision.limited (max 1 (ceil_seconds (oldest_wait now current))),
        set_requests key current entries,
      )
      else (Decision.allowed, set_requests key (current ++ (now ∷ [])) entries)

  -- A key that is not in the dictionary.
  unfoldable pub consume_new : ℕ → ℕ → List Entry → Decision × List Entry
  consume_new key now entries =
      let room = make_room now entries in
      if leb config.max_keys (size room)
      then (Decision.limited (max 1 (ceil_seconds (least_wait now room))), room)
      else admit key now [] (record { key = key; requests = [] } ∷ room)

  unfoldable pub consume : ℕ → ℕ → List Entry → Decision × List Entry
  consume key now entries = elim (first? (has_key key) entries) [
    | none ↦ consume_new key now entries
    | some e ↦ admit key now (drop_expired now e.requests) entries
  ]

-- `clear`
abbrev pub clear : List Entry → List Entry
clear entries = []
