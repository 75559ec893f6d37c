-- ===== src/RateLimit/Admission.antt =====
-- `consume` keeps the entries in step with the log, and what it decides.
use unishop_china.Prelude.{
  ℕ, ◌≤◌, ◌<◌, ◌≡◌, refl, sym, subst, ap, ◌∙◌, Bool, true, false, ◌&&◌, ◌||◌, is_some, not, Option,
  none, some, List, [], ◌∷◌, ◌++◌, arith, Bool-cases, Option-cases, inl, inr, ltb, leb, ◌==◌,
  ==_refl,
}
use unishop_china.Prelude.Rows.{first?, count, All}
use unishop_china.Prelude.Rows.Counting.{All-first?, count-none}
use unishop_china.Prelude.Rows.Selecting.{
  count-select_le, All-select, first?-select-none, first?-select_kept, first?-select_gone,
}
use unishop_china.RateLimit.Limiter.{
  Config, Entry, has_key, length, size, is_expired, make_room, drop_expired, admit, consume_new,
  consume,
}
use unishop_china.RateLimit.Deque
use unishop_china.RateLimit.Deque.{Ordered, in_window}
use unishop_china.RateLimit.Window.{
  Request, requests_of, is_allowed, logged, logged_in_window, Holds, Tracks, set-Tracks,
}

module _ (config : Config) where
  -- The end of `consume`, from entries that have the key.
  admit-Tracks :
      (key now : ℕ) (current : List ℕ) (entries : List Entry) (e : Entry) (log : List Request)
      → Tracks config now entries log
      → first? (has_key key) entries ≡ some e
      → Holds config now (record e { requests = current })
      → ((later : ℕ)
          → now ≤ later
          → logged_in_window config key later log ≡ count (in_window config later) current)
      → let (d, entries') = admit config key now current entries in
        Tracks config now entries' (logged d key now log)
        × (is_allowed d ≡ ltb (length current) config.max_requests)
  unfolding admit count
  admit-Tracks key now current entries e log t found h own =
      elim (Bool-cases (leb config.max_requests (length current))) [
        | inl full ↦ rw full (
          set-Tracks config now key current entries e log log t found h own (λ k later other. refl),
          ground arith,
        )
        | inr room ↦ rw room (
          set-Tracks config now key (current ++ (now ∷ [])) entries e log
              (record { key = key; time = now } ∷ log) t found
              (
                ground (arith, Deque.length-snoc now current, h.0),
                Deque.Ordered-snoc now current h.2 h.1,
                Deque.All-snoc_le now current h.2,
              )
              (λ later g. ground (
                arith,
                ==_refl key,
                own later g,
                Deque.count-snoc (in_window config later) now current,
              ))
              (λ k later other. ground arith),
          ground arith,
        )
      ]

  found_requests :
      (k : ℕ) (entries : List Entry) (o : Option Entry)
      → first? (has_key k) entries ≡ o
      → requests_of k entries ≡ elim o [ none ↦ [] | some e ↦ e.requests ]
  found_requests k entries o e =
      ap (λ (x : Option Entry). elim x [ none ↦ [] | some y ↦ y.requests ]) e

  -- Expired entries have nothing in the window.
  make_room-requests :
      (now later k : ℕ) (entries : List Entry) (log : List Request)
      → now ≤ later
      → Tracks config now entries log
      → count (in_window config later) (requests_of k (make_room config now entries))
        ≡ count (in_window config later) (requests_of k entries)
  unfolding make_room is_expired count
  make_room-requests now later k entries log h t =
      elim (Option-cases (first? (has_key k) entries)) [
        | inl absent ↦ ap (count (in_window config later)) (
            found_requests k (make_room config now entries) none
              (first?-select-none (has_key k) kept entries absent)
            ∙ sym (found_requests k entries none absent))
        | inr (e, found) ↦ elim (Bool-cases (is_expired config now e)) [
          | inr stays ↦ ap (count (in_window config later)) (
              found_requests k (make_room config now entries) (some e)
                (first?-select_kept (has_key k) kept entries e found (ground arith))
              ∙ sym (found_requests k entries (some e) found))
          | inl gone ↦
              ap (count (in_window config later)) (
                found_requests k (make_room config now entries) none
                  (first?-select_gone (has_key k) kept entries e (t.unique k) found (ground arith)))
              ∙ sym (
                  ap (count (in_window config later)) (found_requests k entries (some e) found)
                  ∙ Deque.none_in_window config now later e.requests
                      (All-first? (Holds config now) (has_key k) entries e t.holds found).1 h
                      (λ m last. ground arith))
        ]
      ]
    where
      kept : Entry → Bool
      kept e = not (is_expired config now e)

  make_room-Tracks :
      (now : ℕ) (entries : List Entry) (log : List Request)
      → Tracks config now entries log
      → Tracks config now (make_room config now entries) log
  make_room-Tracks now entries log t = record {
    unique = λ k.
        unfold make_room in
        omega (
          arith,
          t.unique k,
          count-select_le (has_key k) (λ e. not (is_expired config now e)) entries,
        );
    sized =
        unfold make_room in
        omega (
          arith,
          t.sized,
          count-select_le (λ e. true) (λ e. not (is_expired config now e)) entries,
        );
    holds =
        unfold make_room in
        All-select (Holds config now) (λ e. not (is_expired config now e)) entries t.holds;
    tracks = λ k later g. t.tracks k later g ∙ sym (make_room-requests now later k entries log g t);
  }

  -- An empty entry for a key that has none.
  add-Tracks :
      (now key : ℕ) (entries : List Entry) (log : List Request)
      → Tracks config now entries log
      → first? (has_key key) entries ≡ none
      → size entries < config.max_keys
      → Tracks config now (record { key = key; requests = [] } ∷ entries) log
  unfolding count first?
  add-Tracks now key entries log t absent small = record {
    unique = λ k. elim (Bool-cases (key == k)) [
      | inl same ↦
          let eq : key ≡ k = ground arith in
          ground (
            arith,
            subst (λ j. count (has_key j) entries ≡ 0) eq (count-none (has_key key) entries absent),
          )
      | inr other ↦ ground (arith, t.unique k)
    ];
    sized = omega (arith, small);
    holds = ((omega arith, tt, tt), t.holds);
    tracks = λ k later g. elim (Bool-cases (key == k)) [
      | inl same ↦
          let eq : key ≡ k = ground arith in
          ground
            (arith, t.tracks k later g, subst (λ j. first? (has_key j) entries ≡ none) eq absent)
      | inr other ↦ ground (arith, t.tracks k later g)
    ];
  }

  -- After a request the entries still track the log, to which an allowed request is added.
  pub consume-Tracks :
      (key now : ℕ) (entries : List Entry) (log : List Request)
      → Tracks config now entries log
      → let (d, entries') = consume config key now entries in
        Tracks config now entries' (logged d key now log)
  unfolding consume consume_new
  consume-Tracks key now entries log t = elim (Option-cases (first? (has_key key) entries)) [
    | inr (e, found) ↦ rw (found, consume) (known e found).0
    | inl absent ↦
        rw (absent, consume)
          (elim (Bool-cases (leb config.max_keys (size (make_room config now entries)))) [
            | inl full ↦ rw full (make_room-Tracks now entries log t)
            | inr room ↦ rw room (fresh absent room)
          ])
  ]
    where
      known :
          (e : Entry)
          → first? (has_key key) entries ≡ some e
          → let (d, entries') = admit config key now (drop_expired config now e.requests) entries in
            Tracks config now entries' (logged d key now log)
            × (is_allowed d ≡ ltb (length (drop_expired config now e.requests)) config.max_requests)
      known e found =
          let h = All-first? (Holds config now) (has_key key) entries e t.holds found in
          admit-Tracks key now (drop_expired config now e.requests) entries e log t found
            (
              omega (arith, Deque.drop_expired-length config now e.requests, h.0),
              Deque.drop_expired-Ordered config now e.requests h.1,
              Deque.drop_expired-All config (λ u. u ≤ now) now e.requests h.2,
            )
            (λ later g.
              t.tracks key later g
              ∙ ap (count (in_window config later)) (found_requests key entries (some e) found)
              ∙ sym (Deque.drop_expired-count config now later e.requests g))

      fresh :
          first? (has_key key) entries ≡ none
          → leb config.max_keys (size (make_room config now entries)) ≡ false
          → let (d, entries') =
              admit config key now []
                (record { key = key; requests = [] } ∷ make_room config now entries) in
            Tracks config now entries' (logged d key now log)
      fresh absent room =
          let added =
            add-Tracks now key (make_room config now entries) log
              (make_room-Tracks now entries log t)
              (unfold make_room in
                first?-select-none (has_key key) (λ e. not (is_expired config now e)) entries
                  absent)
              (ground arith) in
          (admit-Tracks key now []
            (record { key = key; requests = [] } ∷ make_room config now entries)
            (record { key = key; requests = [] }) log added
            (unfold first? in ground (arith, ==_refl key)) (omega arith, tt, tt)
            (λ later g.
              added.tracks key later g
              ∙ ap (count (in_window config later))
                  (unfold first? in ground (arith, ==_refl key)))).0

  -- The decision of `consume`.
  pub consume_allows :
      (key now : ℕ) (entries : List Entry) (log : List Request)
      → 1 ≤ config.max_requests
      → Tracks config now entries log
      → is_allowed (consume config key now entries).0 ≡ (
          ltb (logged_in_window config key now log) config.max_requests
          && (is_some (first? (has_key key) entries)
              || ltb (size (make_room config now entries)) config.max_keys))
  unfolding consume consume_new admit count
  consume_allows key now entries log positive t =
      elim (Option-cases (first? (has_key key) entries)) [
        | inr (e, found) ↦ ground (
          arith,
          t.tracks key now,
          found_requests key entries (some e) found,
          Deque.drop_expired-all config now e.requests
              (All-first? (Holds config now) (has_key key) entries e t.holds found).1,
        )
        | inl absent ↦ ground (arith, t.tracks key now, found_requests key entries none absent)
      ]

  -- No key has more than `max_requests` times.
  pub requests-length :
      (key now : ℕ) (entries : List Entry)
      → All (Holds config now) entries
      → length (requests_of key entries) ≤ config.max_requests
  requests-length key now entries h = elim (Option-cases (first? (has_key key) entries)) [
    | inl absent ↦ rw (found_requests key entries none absent) (omega arith)
    | inr (e, found) ↦
        rw (found_requests key entries (some e) found)
          (All-first? (Holds config now) (has_key key) entries e h found).0
  ]
