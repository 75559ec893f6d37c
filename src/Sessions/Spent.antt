-- ===== src/Sessions/Spent.antt =====
-- A refresh token is good for one rotation: what a second presentation of it does.
use unishop_china.Prelude.{
  ℕ, ◌≡◌, refl, subst, true, false, Option, some, arith, is_some, is_nonempty, ==_refl, ◌∷◌, ◌∙◌,
  Bool-cases, inl, inr, ◌⊎◌,
}
use unishop_china.Prelude.Rows.{first?}
use unishop_china.Prelude.Rows.Counting.{
  updated, first?-update, first?-holds, count-pos, count-none,
}
use unishop_china.Models.{RefreshToken, RevocationReason, Db}
use unishop_china.Action.{ok, err, Error}
use unishop_china.Repositories.RefreshTokens.{
  has_hash, has_id, revoked, rotated_to, in_family, get_for_update_by_hash, mark_token_rotated,
  revoke_family,
}
use unishop_china.Sessions.Service.{
  SessionEnv, Draw, AuthCookieMaterial, RefreshAccessResult, rotate_session,
}
use unishop_china.Sessions.Rotation.{IsRotation}
use unishop_china.Sessions.Refresh.{
  Promise, rotate_session-Promise, rotate_session-reused, rotate_session-refused,
}

-- The table after a rotation: the rotated row and the new one, found by their digests.
module _ (env : SessionEnv) (h : ℕ) (cookie header : Option ℕ) (now : ℕ) (db : Db)
    (m : AuthCookieMaterial) (u : ℕ) (db' : Db)
    (r : IsRotation env h cookie header now db m u db') where
  first_current : first? (has_hash h) (r.replacement ∷ db.refresh_tokens) ≡ some r.current
  unfolding first? get_for_update_by_hash
  first_current = ground (
    arith,
    r.found,
    count-none (has_hash r.replacement.token_hash) db.refresh_tokens r.adds.new_hash,
    first?-holds (has_hash h) db.refresh_tokens r.current r.found,
    count-pos (has_hash r.replacement.token_hash) (has_hash h) db.refresh_tokens r.current r.found,
  )

  -- The rotated row is still found under its digest, now revoked.
  pub current_after :
      get_for_update_by_hash h db' ≡ some (rotated_to r.replacement.id now r.current)
  unfolding get_for_update_by_hash mark_token_rotated rotated_to revoked
  current_after =
      rw (r.state, r.adds.state)
        (first?-update (has_hash h) (has_id r.current.id) (rotated_to r.replacement.id now)
            (r.replacement ∷ db.refresh_tokens) r.current (λ x. ground arith) first_current
          ∙ ground (arith, ==_refl r.current.id))

  -- So is the new one, in the same family.
  pub replacement_after :
      (t : RefreshToken) × (get_for_update_by_hash (env.hash_refresh_token m.refresh_token) db'
        ≡ some t)
      × (t.family_id ≡ r.current.family_id)
  unfolding get_for_update_by_hash mark_token_rotated rotated_to revoked first?
  replacement_after = (
    updated (has_id r.current.id) (rotated_to r.replacement.id now) r.replacement,
    rw (r.state, r.adds.state)
        (first?-update (has_hash (env.hash_refresh_token m.refresh_token)) (has_id r.current.id)
          (rotated_to r.replacement.id now) (r.replacement ∷ db.refresh_tokens) r.replacement
          (λ x. ground arith) (ground (arith, r.cookie_token, ==_refl r.replacement.token_hash))),
    ground (arith, r.same_family),
  )

-- A row of a family that was revoked, included revoked ones, is revoked.
revoke_family-found :
    (hash family_id now : ℕ) (reason : RevocationReason) (db : Db) (t s : RefreshToken)
    → get_for_update_by_hash hash db ≡ some t
    → t.family_id ≡ family_id
    → get_for_update_by_hash hash (revoke_family family_id reason now true db) ≡ some s
    → is_some s.revoked_at ≡ true
unfolding get_for_update_by_hash revoke_family in_family revoked
revoke_family-found hash family_id now reason db t s e same f = ground (
  arith,
  first?-update (has_hash hash) (in_family family_id true) (revoked reason now) db.refresh_tokens t
      (λ x. ground arith) e,
)

-- A refresh token is good for one rotation. Presented again with the same CSRF tokens, at any
-- time after a rotation that returned, it is refused, and the token that the rotation handed out
-- is revoked by then.
rotate_session_spent :
    (env : SessionEnv) (raw : ℕ) (cookie header : Option ℕ) (now later : ℕ)
    (draws draws' : ℕ → Draw) (db db' : Db) (res : RefreshAccessResult)
    → rotate_session env raw cookie header now draws db ≡ (ok res, db')
    → let (r, db'') = rotate_session env raw cookie header later draws' db' in
      (r ≡ err Error.session_refresh)
      × ((t : RefreshToken)
          → get_for_update_by_hash (env.hash_refresh_token res.cookies.refresh_token) db'' ≡ some t
          → is_some t.revoked_at ≡ true)
unfolding rotated_to revoked
rotate_session_spent env raw cookie header now later draws draws' db db' res e =
    let h : ℕ = env.hash_refresh_token raw in
    let promise : Promise env raw cookie header now db (ok res, db') =
      subst (Promise env raw cookie header now db) e
        (rotate_session-Promise env raw cookie header now draws db) in
    let rot : IsRotation env h cookie header now db res.cookies promise.0 db' = promise.2 in
    let family : ℕ = rot.current.family_id in
    let (t, found, same) =
      replacement_after env h cookie header now db res.cookies promise.0 db' rot in
    rw
      (rotate_session-reused env raw cookie header later draws' db'
        (rotated_to rot.replacement.id now rot.current) (given (Bool-cases (is_nonempty raw)))
        (current_after env h cookie header now db res.cookies promise.0 db' rot) rot.csrf refl)
      (
        refl,
        λ s f.
            revoke_family-found _ family later RevocationReason.reuse_detected db' t s found same f,
      )
  where
    given : (is_nonempty raw ≡ true) ⊎ (is_nonempty raw ≡ false) → is_nonempty raw ≡ true
    given (inl y) = y
    given (inr n) =
        absurd (ground (arith, e, rotate_session-refused env raw cookie header now draws db n))
