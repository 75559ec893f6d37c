-- ===== src/Sessions/Creation.antt =====
-- The collision loop of `_create_token_record`: what a round that fits adds, and which round it is.
use unishop_china.Prelude.{
  ℕ, zero, suc, ◌+◌, ◌<◌, ◌≡◌, refl, inl, inr, none, some, ◌∷◌, min, leb, arith, Option-cases,
  Bool-cases,
}
use unishop_china.Prelude.Rows.{first?}
use unishop_china.Models.{RefreshToken, Db, days}
use unishop_china.Action.{Result, ok, err, Error}
use unishop_china.Repositories.RefreshTokens.{has_id, has_hash}
use unishop_china.Sessions.Service.{
  SessionEnv, Draw, AuthCookieMaterial, drawn_record, drawn_material, try_draw, create_attempts,
  create_token_record,
}

-- The row is new in its primary key and its digest, and the table gains it and nothing else.
pub record Adds (db : Db) (t : RefreshToken) (db' : Db) : Type 0 where
  pub new_id : first? (has_id t.id) db.refresh_tokens ≡ none
  pub new_hash : first? (has_hash t.token_hash) db.refresh_tokens ≡ none
  pub state : db' ≡ record db { refresh_tokens = t ∷ db.refresh_tokens }

module _ (env : SessionEnv) (user_id family_id family_expires_at expires_at now : ℕ) where
  -- What the loop may return: an added row of the session asked for, or a collision that left
  -- the database alone.
  abbrev pub Created : Db → Result (RefreshToken × AuthCookieMaterial) × Db → Type 0
  Created db (ok (t, m), db') =
      (d : Draw) × (t ≡ drawn_record env user_id family_id family_expires_at expires_at now d)
      × (m ≡ drawn_material env user_id family_id family_expires_at expires_at now d)
      × Adds db t db'
  Created db (err e, db') = (e ≡ Error.refresh_token_collision) × (db' ≡ db)

  pub try_draw-Adds :
      (d : Draw) (db db' : Db)
      → try_draw env user_id family_id family_expires_at expires_at now d db ≡ some db'
      → Adds db (drawn_record env user_id family_id family_expires_at expires_at now d) db'
  unfolding try_draw
  try_draw-Adds d db db' e = record {
    new_id = ground arith;
    new_hash = ground arith;
    state = ground arith;
  }

  pub create_attempts-Created :
      (left i : ℕ) (draws : ℕ → Draw) (db : Db)
      → Created db
          (create_attempts env user_id family_id family_expires_at expires_at now left i draws db)
  unfolding create_attempts
  create_attempts-Created zero i draws db = (refl, refl)
  create_attempts-Created (suc left) i draws db =
      elim (Option-cases
        (try_draw env user_id family_id family_expires_at expires_at now (draws i) db)) [
          | inl e ↦ rw (e, create_attempts) (create_attempts-Created left (suc i) draws db)
          | inr (db', e) ↦
              rw (e, create_attempts) (draws i, refl, refl, try_draw-Adds (draws i) db db' e)
        ]

  -- The loop takes the first round that fits, and gives up after the last: with k rounds that
  -- collide and a round k that fits, it returns the row and the cookies of round k; if all its
  -- rounds collide it raises a collision and leaves the database alone.
  pub create_attempts_first :
      (left i k : ℕ) (draws : ℕ → Draw) (db db' : Db)
      → k < left
      → ((j : ℕ)
          → j < k
          → try_draw env user_id family_id family_expires_at expires_at now (draws (i + j)) db
            ≡ none)
      → try_draw env user_id family_id family_expires_at expires_at now (draws (i + k)) db
        ≡ some db'
      → create_attempts env user_id family_id family_expires_at expires_at now left i draws db ≡ (
        ok (
          drawn_record env user_id family_id family_expires_at expires_at now (draws (i + k)),
          drawn_material env user_id family_id family_expires_at expires_at now (draws (i + k)),
        ),
        db',
      )
  unfolding create_attempts
  create_attempts_first zero i k draws db db' h none_before fits = absurd (omega arith)
  create_attempts_first (suc left) i zero draws db db' h none_before fits =
      let e : i + zero ≡ i = omega arith in rw (rw e at fits, create_attempts) (rw e)
  create_attempts_first (suc left) i (suc k) draws db db' h none_before fits =
      let e : i + suc k ≡ suc i + k = omega arith in
      let start : i + 0 ≡ i = omega arith in
      let miss : try_draw env user_id family_id family_expires_at expires_at now (draws i) db
          ≡ none =
        rw start at (none_before 0 (omega arith)) in
      rw (miss, create_attempts)
        (rw e (
          create_attempts_first left (suc i) k draws db db' (omega arith)
            (λ j hj.
              let shift : i + suc j ≡ suc i + j = omega arith in
              rw shift at (none_before (suc j) (omega arith)))
            (rw e at fits)))

-- `_create_token_record` as a whole: the row expires within the family and after now.
abbrev pub CreatedLive :
    SessionEnv → ℕ → ℕ → ℕ → ℕ → Db → Result (RefreshToken × AuthCookieMaterial) × Db → Type 0
CreatedLive env user_id family_id family_expires_at now db (ok (t, m), db') =
    Adds db t db'
    × (t.user_id ≡ user_id)
    × (t.family_id ≡ family_id)
    × (t.family_expires_at ≡ family_expires_at)
    × (t.expires_at ≡ min (now + days env.refresh_token_expire_days) family_expires_at)
    × (now < t.expires_at)
    × (t.revoked_at ≡ none)
    × (t.token_hash ≡ env.hash_refresh_token m.refresh_token)
    × (t.csrf_token_hash ≡ env.hash_csrf_token m.csrf_token)
CreatedLive env user_id family_id family_expires_at now db (err e, db') = db' ≡ db

create_attempts-CreatedLive :
    (env : SessionEnv) (user_id family_id family_expires_at expires_at now : ℕ) (db : Db)
    (r : Result (RefreshToken × AuthCookieMaterial) × Db)
    → expires_at ≡ min (now + days env.refresh_token_expire_days) family_expires_at
    → now < expires_at
    → Created env user_id family_id family_expires_at expires_at now db r
    → CreatedLive env user_id family_id family_expires_at now db r
unfolding drawn_record drawn_material
create_attempts-CreatedLive env u f fe e now db (ok (t, m), db') eq h (d, et, em, a) = (
  a,
  ground arith,
  ground arith,
  ground arith,
  ground arith,
  ground arith,
  ground arith,
  ground arith,
  ground arith,
)
create_attempts-CreatedLive env u f fe e now db (err x, db') eq h c = c.1

pub create_token_record-CreatedLive :
    (env : SessionEnv) (user_id family_id family_expires_at now : ℕ) (draws : ℕ → Draw) (db : Db)
    → CreatedLive env user_id family_id family_expires_at now db
        (create_token_record env user_id family_id family_expires_at now draws db)
unfolding create_token_record
create_token_record-CreatedLive env u f fe now draws db =
    let e : ℕ = min (now + days env.refresh_token_expire_days) fe in
    elim (Bool-cases (leb e now)) [
      | inl late ↦ rw late refl
      | inr live ↦ rw live (
          create_attempts-CreatedLive env u f fe e now db
            (create_attempts env u f fe e now env.collision_attempts 0 draws db) refl (ground arith)
            (create_attempts-Created env u f fe e now env.collision_attempts 0 draws db))
    ]
