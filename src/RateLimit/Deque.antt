-- ===== src/RateLimit/Deque.antt =====
-- The times of a key: which of them are in the window, and what the pops leave.
use unishop_china.Prelude.{
  ℕ, ◌+◌, ◌≤◌, ◌<◌, ◌≡◌, refl, Bool, some, List, [], ◌∷◌, ◌++◌, arith, Bool-cases, Option-cases,
  inl, inr, ltb, leb, if◌then◌else◌,
}
use unishop_china.Prelude.Rows.{count, All}
use unishop_china.RateLimit.Limiter.{Config, length, last?, window, drop_expired}

-- Oldest first.
abbrev pub Ordered : List ℕ → Type 0
Ordered [] = Unit
Ordered (t ∷ ts) = All (λ u. t ≤ u) ts × Ordered ts

pub All-weaken : (m n : ℕ) (ts : List ℕ) → m ≤ n → All (λ u. u ≤ m) ts → All (λ u. u ≤ n) ts
All-weaken m n [] h a = tt
All-weaken m n (t ∷ ts) h a = (omega (arith, a.0), All-weaken m n ts h a.1)

pub All-snoc :
    (t m : ℕ) (ts : List ℕ) → t ≤ m → All (λ u. t ≤ u) ts → All (λ u. t ≤ u) (ts ++ (m ∷ []))
All-snoc t m [] h a = (h, tt)
All-snoc t m (u ∷ ts) h a = (a.0, All-snoc t m ts h a.1)

pub All-snoc_le : (m : ℕ) (ts : List ℕ) → All (λ u. u ≤ m) ts → All (λ u. u ≤ m) (ts ++ (m ∷ []))
All-snoc_le m [] a = (omega arith, tt)
All-snoc_le m (u ∷ ts) a = (a.0, All-snoc_le m ts a.1)

pub Ordered-snoc :
    (m : ℕ) (ts : List ℕ) → All (λ u. u ≤ m) ts → Ordered ts → Ordered (ts ++ (m ∷ []))
Ordered-snoc m [] a o = (tt, tt)
Ordered-snoc m (t ∷ ts) a o = (All-snoc t m ts a.0 o.0, Ordered-snoc m ts a.1 o.1)

pub length-snoc : (m : ℕ) (ts : List ℕ) → length (ts ++ (m ∷ [])) ≡ length ts + 1
length-snoc m [] = refl
length-snoc m (t ∷ ts) = omega (arith, length-snoc m ts)

pub count-le_length : (p : ℕ → Bool) (ts : List ℕ) → count p ts ≤ length ts
unfolding count
count-le_length p [] = omega arith
count-le_length p (t ∷ ts) = ground (arith, count-le_length p ts)

pub count-snoc :
    (p : ℕ → Bool) (m : ℕ) (ts : List ℕ)
    → count p (ts ++ (m ∷ [])) ≡ count p ts + (if p m then 1 else 0)
unfolding count
count-snoc p m [] = omega arith
count-snoc p m (t ∷ ts) = omega (arith, count-snoc p m ts)

module _ (config : Config) where
  -- A request made at a time is in the window at another.
  abbrev pub in_window : ℕ → ℕ → Bool
  in_window now t = ltb now (t + window config)

  pub drop_expired-length :
      (now : ℕ) (ts : List ℕ) → length (drop_expired config now ts) ≤ length ts
  unfolding drop_expired
  drop_expired-length now [] = omega arith
  drop_expired-length now (t ∷ ts) = ground (arith, drop_expired-length now ts)

  -- What is popped is in the window at no later time.
  pub drop_expired-count :
      (now later : ℕ) (ts : List ℕ)
      → now ≤ later
      → count (in_window later) (drop_expired config now ts) ≡ count (in_window later) ts
  unfolding drop_expired count
  drop_expired-count now later [] h = refl
  drop_expired-count now later (t ∷ ts) h = ground (arith, drop_expired-count now later ts h)

  pub drop_expired-All :
      (P : ℕ → Type 0) (now : ℕ) (ts : List ℕ) → All P ts → All P (drop_expired config now ts)
  unfolding drop_expired
  drop_expired-All P now [] a = tt
  drop_expired-All P now (t ∷ ts) a = elim (Bool-cases (leb (t + window config) now)) [
    | inl old ↦ rw old (drop_expired-All P now ts a.1)
    | inr young ↦ rw young a
  ]

  pub drop_expired-Ordered :
      (now : ℕ) (ts : List ℕ) → Ordered ts → Ordered (drop_expired config now ts)
  unfolding drop_expired
  drop_expired-Ordered now [] o = tt
  drop_expired-Ordered now (t ∷ ts) o = elim (Bool-cases (leb (t + window config) now)) [
    | inl old ↦ rw old (drop_expired-Ordered now ts o.1)
    | inr young ↦ rw young o
  ]

  young_in_window :
      (now t : ℕ) (ts : List ℕ)
      → now < t + window config
      → All (λ u. t ≤ u) ts
      → count (in_window now) ts ≡ length ts
  unfolding count
  young_in_window now t [] h a = refl
  young_in_window now t (u ∷ ts) h a = ground (arith, a.0, young_in_window now t ts h a.1)

  -- What is left in an ordered list is in the window.
  pub drop_expired-all :
      (now : ℕ) (ts : List ℕ)
      → Ordered ts
      → length (drop_expired config now ts) ≡ count (in_window now) ts
  unfolding drop_expired count
  drop_expired-all now [] o = refl
  drop_expired-all now (t ∷ ts) o = elim (Bool-cases (leb (t + window config) now)) [
    | inl old ↦ ground (arith, drop_expired-all now ts o.1)
    | inr young ↦ ground (arith, young_in_window now t ts (ground arith) o.0)
  ]

  -- No time is later than the last one.
  pub none_in_window :
      (now later : ℕ) (ts : List ℕ)
      → Ordered ts
      → now ≤ later
      → ((m : ℕ) → last? ts ≡ some m → m + window config ≤ now)
      → count (in_window later) ts ≡ 0
  unfolding count last?
  none_in_window now later [] o h e = refl
  none_in_window now later (t ∷ ts) o h e = elim (Option-cases (last? ts)) [
    | inl single ↦
        ground (arith, e t, none_in_window now later ts o.1 h (λ m e'. absurd (ground arith)), o.0)
    | inr (m, more) ↦ ground (
      arith,
      e m,
      none_in_window now later ts o.1 h (λ n e'. ground (arith, e m)),
      first_le_last t ts m o.0 more,
    )
  ]
    where
      first_le_last :
          (t : ℕ) (ts : List ℕ) (m : ℕ) → All (λ u. t ≤ u) ts → last? ts ≡ some m → t ≤ m
      first_le_last t [] m a e = absurd (ground arith)
      first_le_last t (u ∷ ts) m a e = elim (Option-cases (last? ts)) [
        | inl single ↦ ground (arith, a.0)
        | inr (n, more) ↦ ground (arith, first_le_last t ts n a.1 more)
      ]
