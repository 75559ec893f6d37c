-- ===== src/Sessions/Rotation.antt =====
-- What the transaction of `rotate_session` may do: rotate the presented token, revoke its family,
-- or leave the database alone.
use unishop_china.Prelude.{
  ℕ, ◌<◌, ◌≤◌, ◌≡◌, refl, sym, subst, ap, ◌∙◌, ◌∷◌, ◌==◌, ◌⊎◌, inl, inr, Bool, true, ◌||◌, Option,
  none, some, arith, Bool-cases, Option-cases, leb, is_some,
}
use unishop_china.Prelude.Rows.{update}
use unishop_china.Models.{RefreshToken, RevocationReason, User, is_active, Db}
use unishop_china.Action.{Result, ok, err, Error, check-cases}
use unishop_china.Repositories.Users
use unishop_china.Repositories.RefreshTokens.{
  revoked, rotated_to, get_for_update_by_hash, mark_token_rotated, revoke_family,
}
use unishop_china.Sessions.Csrf.{validate_csrf_tokens}
use unishop_china.Sessions.Service.{
  SessionEnv, Draw, AuthCookieMaterial, create_token_record, rotate_live, rotate_current,
  rotate_locked,
}
use unishop_china.Sessions.Creation.{Adds, CreatedLive, create_token_record-CreatedLive}

-- A successful rotation, with all that it read and wrote.
pub record IsRotation (env : SessionEnv) (presented_hash : ℕ) (cookie header : Option ℕ) (now : ℕ)
    (db : Db) (m : AuthCookieMaterial) (user_id : ℕ) (db' : Db) : Type 0 where
  pub current : RefreshToken
  pub user : User
  pub replacement : RefreshToken
  pub added : Db
  pub found : get_for_update_by_hash presented_hash db ≡ some current
  pub csrf :
      validate_csrf_tokens env.hash_csrf_token cookie header (some current.csrf_token_hash) ≡ ok tt
  pub unrevoked : current.revoked_at ≡ none
  pub unexpired : now < current.expires_at
  pub family_unexpired : now < current.family_expires_at
  pub owner : Users.get_by_id current.user_id db ≡ some user
  pub owner_active : is_active user.account_status ≡ true
  pub adds : Adds db replacement added
  pub same_user : replacement.user_id ≡ current.user_id
  pub same_family : replacement.family_id ≡ current.family_id
  pub same_deadline : replacement.family_expires_at ≡ current.family_expires_at
  pub within_family : replacement.expires_at ≤ replacement.family_expires_at
  pub replacement_live : replacement.revoked_at ≡ none
  pub cookie_token : replacement.token_hash ≡ env.hash_refresh_token m.refresh_token
  pub of_user : user_id ≡ current.user_id
  pub state : db' ≡ mark_token_rotated current replacement.id now added
  -- The presented token is revoked as rotated, and its successor is noted; the successor is added;
  -- nothing else is written.
  pub written : db' ≡ record db {
    refresh_tokens =
        update
          (λ t. t.id == current.id)
          (λ t. record t {
            last_used_at = some now;
            revoked_at = some now;
            revocation_reason = some RevocationReason.rotated;
            replaced_by_token_id = some replacement.id;
          })
          (replacement ∷ db.refresh_tokens);
  }

-- The rows that some condition selects are revoked, and nothing else changes.
pub record Revokes (now : ℕ) (db db' : Db) : Type 0 where
  pub selected : RefreshToken → Bool
  pub reason : RevocationReason
  pub state : db' ≡ record db {
    refresh_tokens =
        update selected
          (λ t. record t {
            last_used_at = some now;
            revoked_at = some now;
            revocation_reason = some reason;
          })
          db.refresh_tokens;
  }

module _ (env : SessionEnv) (presented_hash : ℕ) (cookie header : Option ℕ) (now : ℕ) where
  -- The outcomes of the transaction's body. A raise is rolled back, so it promises nothing here.
  abbrev pub Outcome : Db → Result (Option (AuthCookieMaterial × ℕ)) × Db → Type 0
  Outcome db (ok none, db') = (db' ≡ db) ⊎ Revokes now db db'
  Outcome db (ok (some (m, u)), db') = IsRotation env presented_hash cookie header now db m u db'
  Outcome db (err e, db') = Unit

  module _ (draws : ℕ → Draw) (db : Db) where
    rotate_live-Outcome :
        (current : RefreshToken) (user : User)
        → get_for_update_by_hash presented_hash db ≡ some current
        → validate_csrf_tokens env.hash_csrf_token cookie header (some current.csrf_token_hash)
          ≡ ok tt
        → current.revoked_at ≡ none
        → now < current.expires_at
        → now < current.family_expires_at
        → Users.get_by_id current.user_id db ≡ some user
        → is_active user.account_status ≡ true
        → Outcome db (rotate_live env current now draws db)
    unfolding rotate_live
    rotate_live-Outcome current user found csrf live ue fe owner act = go _ _ refl (
        create_token_record-CreatedLive env current.user_id current.family_id
          current.family_expires_at now draws db)
      where
        outcome-ok :
            (t : RefreshToken) (m : AuthCookieMaterial) (db1 : Db)
            → create_token_record env current.user_id current.family_id current.family_expires_at
                now draws db
              ≡ (ok (t, m), db1)
            → rotate_live env current now draws db
              ≡ (ok (some (m, current.user_id)), mark_token_rotated current t.id now db1)
        outcome-ok t m db1 e = ground arith

        written_lem :
            (t : RefreshToken) (db1 : Db)
            → db1 ≡ record db { refresh_tokens = t ∷ db.refresh_tokens }
            → mark_token_rotated current t.id now db1 ≡ record db {
              refresh_tokens =
                  update
                    (λ u. u.id == current.id)
                    (λ u. record u {
                      last_used_at = some now;
                      revoked_at = some now;
                      revocation_reason = some RevocationReason.rotated;
                      replaced_by_token_id = some t.id;
                    })
                    (t ∷ db.refresh_tokens);
            }
        written_lem t db1 e =
            ap (mark_token_rotated current t.id now) e
            ∙ unfold mark_token_rotated rotated_to revoked in refl

        outcome-err :
            (x : Error) (db1 : Db)
            → create_token_record env current.user_id current.family_id current.family_expires_at
                now draws db
              ≡ (err x, db1)
            → rotate_live env current now draws db ≡ (err x, db1)
        outcome-err x db1 e = ground arith

        go :
            (r : Result (RefreshToken × AuthCookieMaterial)) (db1 : Db)
            → create_token_record env current.user_id current.family_id current.family_expires_at
                now draws db
              ≡ (r, db1)
            → CreatedLive env current.user_id current.family_id current.family_expires_at now db
                (r, db1)
            → Outcome db (rotate_live env current now draws db)
        go (ok (t, m)) db1 e (a, su, sf, sd, se, le, lr, th, ch) =
            subst (Outcome db) (sym (outcome-ok t m db1 e)) (record {
              current = current;
              user = user;
              replacement = t;
              added = db1;
              found = found;
              csrf = csrf;
              unrevoked = live;
              unexpired = ue;
              family_unexpired = fe;
              owner = owner;
              owner_active = act;
              adds = a;
              same_user = su;
              same_family = sf;
              same_deadline = sd;
              within_family = omega arith;
              replacement_live = lr;
              cookie_token = th;
              of_user = refl;
              state = refl;
              written = written_lem t db1 a.state;
            })
        go (err x) db1 e c = subst (Outcome db) (sym (outcome-err x db1 e)) tt

    rotate_current-Outcome :
        (current : RefreshToken)
        → get_for_update_by_hash presented_hash db ≡ some current
        → validate_csrf_tokens env.hash_csrf_token cookie header (some current.csrf_token_hash)
          ≡ ok tt
        → Outcome db (rotate_current env current now draws db)
    unfolding rotate_current revoke_family revoked
    rotate_current-Outcome current found csrf = elim (Bool-cases (is_some current.revoked_at)) [
      | inl used ↦ rw used (inr (record { selected = _; reason = _; state = refl }))
      | inr fresh ↦
          rw fresh
            (elim (Bool-cases (leb current.expires_at now || leb current.family_expires_at now)) [
              | inl late ↦ rw late (inr (record { selected = _; reason = _; state = refl }))
              | inr live ↦ rw live (elim (Option-cases (Users.get_by_id current.user_id db)) [
                | inl gone ↦ rw gone (inr (record { selected = _; reason = _; state = refl }))
                | inr (user, owner) ↦ rw owner (elim (Bool-cases (is_active user.account_status)) [
                  | inl act ↦ rw act (
                      rotate_live-Outcome current user found csrf (ground arith) (ground arith)
                        (ground arith) owner act)
                  | inr inactive ↦
                      rw inactive (inr (record { selected = _; reason = _; state = refl }))
                ])
              ])
            ])
    ]

    pub rotate_locked-Outcome :
        Outcome db (rotate_locked env presented_hash cookie header now draws db)
    unfolding rotate_locked
    rotate_locked-Outcome = elim (Option-cases (get_for_update_by_hash presented_hash db)) [
      | inl missing ↦ rw (missing, rotate_locked) (inl refl)
      | inr (current, found) ↦
          rw (found, rotate_locked)
            (elim (check-cases (
              validate_csrf_tokens env.hash_csrf_token cookie header
                (some current.csrf_token_hash))) [
                  | inl csrf ↦ rw csrf (rotate_current-Outcome current found csrf)
                  | inr (e, bad) ↦ rw bad tt
                ])
    ]
