-- ===== src/RateLimit/Window.antt =====
-- The limiter against the log of all the requests that it admitted.
use unishop_china.Prelude.{
  ℕ, ◌≤◌, ◌≡◌, refl, sym, subst, ap, ◌∙◌, Bool, true, false, ◌&&◌, Option, none, some, List, [],
  ◌∷◌, arith, Bool-cases, inl, inr, ◌==◌,
}
use unishop_china.Prelude.Rows.{first?, count, All}
use unishop_china.Prelude.Rows.Counting.{
  count-update_eq, first?-update, first?-update_other, first?-holds, All-update,
}
use unishop_china.RateLimit.Limiter.{Config, Entry, Decision, has_key, length, size, set_requests}
use unishop_china.RateLimit.Deque
use unishop_china.RateLimit.Deque.{Ordered, in_window}

-- An admitted request.
pub record Request : Type 0 where
  pub key : ℕ
  pub time : ℕ

abbrev pub requests_of : ℕ → List Entry → List ℕ
requests_of key entries = elim (first? (has_key key) entries) [ none ↦ [] | some e ↦ e.requests ]

abbrev pub is_allowed : Decision → Bool
is_allowed Decision.allowed = true
is_allowed (Decision.limited wait) = false

-- The log after a decision.
abbrev pub logged : Decision → ℕ → ℕ → List Request → List Request
logged Decision.allowed key now log = record { key = key; time = now } ∷ log
logged (Decision.limited wait) key now log = log

module _ (config : Config) where
  -- The admitted requests of a key that are in the window.
  abbrev pub logged_in_window : ℕ → ℕ → List Request → ℕ
  logged_in_window key now log = count (λ r. r.key == key && in_window config now r.time) log

  abbrev pub Holds : ℕ → Entry → Type 0
  Holds now e =
      (length e.requests ≤ config.max_requests) × Ordered e.requests × All (λ t. t ≤ now) e.requests

  -- The entries are those of the log: keys are unique and not more than allowed, every entry holds
  -- at most `max_requests` times, oldest first, and the entry of a key has the requests of the log
  -- that are still in the window.
  pub record Tracks (now : ℕ) (entries : List Entry) (log : List Request) : Type 0 where
    pub unique : (k : ℕ) → count (has_key k) entries ≤ 1
    pub sized : size entries ≤ config.max_keys
    pub holds : All (Holds now) entries
    pub tracks :
        (k later : ℕ)
        → now ≤ later
        → logged_in_window k later log ≡ count (in_window config later) (requests_of k entries)

  All-Holds :
      (now later : ℕ) (entries : List Entry)
      → now ≤ later
      → All (Holds now) entries
      → All (Holds later) entries
  All-Holds now later [] h a = tt
  All-Holds now later (e ∷ entries) h a = (
    (a.0.0, a.0.1, Deque.All-weaken now later e.requests h a.0.2),
    All-Holds now later entries h a.1,
  )

  -- Time passes.
  pub later-Tracks :
      (now later : ℕ) (entries : List Entry) (log : List Request)
      → now ≤ later
      → Tracks now entries log
      → Tracks later entries log
  later-Tracks now later entries log h t = record {
    unique = t.unique;
    sized = t.sized;
    holds = All-Holds now later entries h t.holds;
    tracks = λ k m g. t.tracks k m (omega arith);
  }

  pub requests_of-set :
      (key : ℕ) (requests : List ℕ) (entries : List Entry) (e : Entry)
      → first? (has_key key) entries ≡ some e
      → requests_of key (set_requests config key requests entries) ≡ requests
  requests_of-set key requests entries e found = ground (
    arith,
    first?-holds (has_key key) entries e found,
    first?-update (has_key key) (has_key key) (λ (x : Entry). record x { requests = requests })
        entries e (λ x. ground arith) found,
  )

  pub requests_of-set_other :
      (key k : ℕ) (requests : List ℕ) (entries : List Entry)
      → (key == k) ≡ false
      → requests_of k (set_requests config key requests entries) ≡ requests_of k entries
  requests_of-set_other key k requests entries other =
      ap (λ (o : Option Entry). elim o [ none ↦ [] | some e ↦ e.requests ])
        (first?-update_other (has_key k) (has_key key)
          (λ (x : Entry). record x { requests = requests }) entries (λ x. ground arith)
          (λ x. ground arith))

  -- Setting the requests of a key that is there.
  pub set-Tracks :
      (now key : ℕ) (requests : List ℕ) (entries : List Entry) (e : Entry) (log log' : List Request)
      → Tracks now entries log
      → first? (has_key key) entries ≡ some e
      → Holds now (record e { requests = requests })
      → ((later : ℕ)
          → now ≤ later
          → logged_in_window key later log' ≡ count (in_window config later) requests)
      → ((k later : ℕ)
          → (key == k) ≡ false
          → logged_in_window k later log' ≡ logged_in_window k later log)
      → Tracks now (set_requests config key requests entries) log'
  set-Tracks now key requests entries e log log' t found h own others = record {
    unique = λ k.
        rw (count-update_eq (has_key k) (has_key key) set entries (λ x. ground arith)) (t.unique k);
    sized = rw (count-update_eq (λ x. true) (has_key key) set entries (λ x. refl)) t.sized;
    holds = All-update (Holds now) (has_key key) set entries (λ x g. h) t.holds;
    tracks = λ k later g. elim (Bool-cases (key == k)) [
      | inl same ↦
          let eq : key ≡ k = ground arith in
          subst
            (λ j.
              logged_in_window j later log'
              ≡ count (in_window config later)
                  (requests_of j (set_requests config key requests entries)))
            eq
            (own later g
              ∙ ap (count (in_window config later))
                  (sym (requests_of-set key requests entries e found)))
      | inr other ↦
          others k later other
          ∙ t.tracks k later g
          ∙ ap (count (in_window config later))
              (sym (requests_of-set_other key k requests entries other))
    ];
  }
    where
      set : Entry → Entry
      set x = record x { requests = requests }
