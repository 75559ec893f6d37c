-- ===== src/RateLimit/Capacity.antt =====
-- The keys that the table holds after the expired ones were removed, against the log.
use unishop_china.Prelude.{
  ℕ, ◌+◌, ◌≤◌, ◌≡◌, refl, ap, ◌∙◌, Bool, true, not, ◌&&◌, Option, none, some, List, [], ◌∷◌, arith,
  Bool-cases, Option-cases, inl, inr, ltb, ◌==◌, ==_refl,
}
use unishop_china.Prelude.Rows.{first?, count, All}
use unishop_china.Prelude.Rows.Counting.{count-pos}
use unishop_china.Prelude.Rows.Selecting.{All-map, All-zip}
use unishop_china.Prelude.Rows.Lengths.{count-both}
use unishop_china.RateLimit.Limiter.{Config, Entry, has_key, last?, size, is_expired, make_room}
use unishop_china.RateLimit.Deque
use unishop_china.RateLimit.Deque.{Ordered, in_window}
use unishop_china.RateLimit.Window.{Request, logged_in_window, Holds, Tracks}

count-All :
    (p q : Entry → Bool) (entries : List Entry)
    → All (λ e. p e ≡ q e) entries
    → count p entries ≡ count q entries
unfolding count
count-All p q [] a = refl
count-All p q (e ∷ entries) a = ground (arith, a.0, count-All p q entries a.1)

-- Where keys are unique, every entry is the one of its key.
entries_own :
    (entries : List Entry)
    → ((k : ℕ) → count (has_key k) entries ≤ 1)
    → All (λ e. first? (has_key e.key) entries ≡ some e) entries
unfolding first? count
entries_own [] unique = tt
entries_own (x ∷ xs) unique = (
  ground (arith, ==_refl x.key),
  All-map (λ e. first? (has_key e.key) xs ≡ some e) (λ e. first? (has_key e.key) (x ∷ xs) ≡ some e)
      xs
      (λ e found. elim (Bool-cases (x.key == e.key)) [
        | inr other ↦ ground (arith, other, found)
        | inl same ↦ absurd (
            omega (
              arith,
              unique e.key,
              count-pos (has_key e.key) (has_key e.key) xs e found (==_refl e.key),
              head_counts e same,
            ))
      ])
      (entries_own xs (λ k. omega (arith, unique k))),
)
  where
    head_counts :
        (e : Entry)
        → (x.key == e.key) ≡ true
        → count (has_key e.key) (x ∷ xs) ≡ 1 + count (has_key e.key) xs
    head_counts e same = ground (arith, same)

last-count : (p : ℕ → Bool) (ts : List ℕ) (m : ℕ) → last? ts ≡ some m → p m ≡ true → 1 ≤ count p ts
unfolding last? count
last-count p [] m e h = absurd (ground arith)
last-count p (t ∷ ts) m e h = elim (Option-cases (last? ts)) [
  | inl single ↦ ground (arith, h, single)
  | inr (n, more) ↦ ground (arith, h, last-count p ts n more)
]

module _ (config : Config) (now : ℕ) where
  -- An entry is kept exactly if one of its times is in the window.
  kept_lem :
      (e : Entry)
      → Holds config now e
      → not (is_expired config now e) ≡ ltb 0 (count (in_window config now) e.requests)
  unfolding is_expired
  kept_lem e h = elim (Option-cases (last? e.requests)) [
    | inl empty ↦ ground (
      arith,
      empty,
      Deque.none_in_window config now now e.requests h.1 (omega arith)
          (λ m last. absurd (ground arith)),
    )
    | inr (m, last) ↦ elim (Bool-cases (in_window config now m)) [
      | inl young ↦
          ground (arith, last, young, last-count (in_window config now) e.requests m last young)
      | inr old ↦ ground (
        arith,
        last,
        old,
        Deque.none_in_window config now now e.requests h.1 (omega arith) (λ n same. ground arith),
      )
    ]
  ]

  -- What is left are the keys that were admitted a request in the window.
  pub size-make_room :
      (entries : List Entry) (log : List Request)
      → Tracks config now entries log
      → size (make_room config now entries)
        ≡ count (λ e. ltb 0 (logged_in_window config e.key now log)) entries
  unfolding make_room
  size-make_room entries log t =
      count-both (λ e. not (is_expired config now e)) (λ e. true) entries
      ∙ count-All (λ e. not (is_expired config now e) && true)
          (λ e. ltb 0 (logged_in_window config e.key now log)) entries
          (All-zip (λ e. first? (has_key e.key) entries ≡ some e) (Holds config now)
            (λ e.
              (not (is_expired config now e) && true)
              ≡ ltb 0 (logged_in_window config e.key now log))
            entries (λ e own h. ground (arith, kept_lem e h, tracked e own))
            (entries_own entries t.unique) t.holds)
    where
      tracked :
          (e : Entry)
          → first? (has_key e.key) entries ≡ some e
          → logged_in_window config e.key now log ≡ count (in_window config now) e.requests
      tracked e own =
          t.tracks e.key now (omega arith)
          ∙ ap
              (λ (o : Option Entry).
                count (in_window config now) (elim o [ none ↦ [] | some x ↦ x.requests ]))
              own
