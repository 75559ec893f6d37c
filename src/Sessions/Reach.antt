-- ===== src/Sessions/Reach.antt =====
-- The session calls as steps on the committed database, and the invariant of every history.
use unishop_china.Prelude.{
  ℕ, zero, suc, ◌≡◌, sym, subst, inl, inr, false, Option, none, some, arith, Option-cases,
}
use unishop_china.Prelude.Rows.{count}
use unishop_china.Prelude.Rows.Counting.{count-update_le}
use unishop_china.Models.{RevocationReason, Db}
use unishop_china.Action.{Result, ok, err, Action, transaction, check-cases}
use unishop_china.Repositories.RefreshTokens.{
  revoked, in_family, revoke_family, get_for_update_by_hash, revoke_all_for_user,
  get_oldest_active_family, mark_token_rotated,
}
use unishop_china.Sessions.Service.{
  SessionEnv, Draw, AuthCookieMaterial, RefreshAccessResult, revoke_oldest, create_login_session,
  rotate_session, logout_current, logout_all,
}
use unishop_china.Sessions.Invariant.{
  IsValid, live_in, update-revoked-IsValid, Adds-IsValid, rotate-IsValid,
}
use unishop_china.Sessions.Refresh.{Promise, rotate_session-Promise}
use unishop_china.Sessions.Logout.{logout_current-state}
use unishop_china.Sessions.Login.{LoginPromise, create_login_session-Promise}

-- A step of the system as the tokens see it. A new login draws a family with no unrevoked token,
-- which a fresh UUID has; `elsewhere` is a step of any other service that leaves the tokens alone.
pub data Step (env : SessionEnv) (db db' : Db) : Type 0 where
  logs_in :
      (user_id now family_id : ℕ) (draws : ℕ → Draw)
      → count (live_in family_id) db.refresh_tokens ≡ 0
      → db' ≡ (transaction (create_login_session env user_id now family_id draws) db).1
      → Step env db db'
  rotates :
      (raw : ℕ) (cookie header : Option ℕ) (now : ℕ) (draws : ℕ → Draw)
      → db' ≡ (rotate_session env raw cookie header now draws db).1
      → Step env db db'
  logs_out :
      (raw cookie header : Option ℕ) (now : ℕ)
      → db' ≡ (logout_current env raw cookie header now db).1
      → Step env db db'
  logs_out_all : (user_id now : ℕ) → db' ≡ (logout_all user_id now db).1 → Step env db db'
  elsewhere : db'.refresh_tokens ≡ db.refresh_tokens → Step env db db'

pub data Reach (env : SessionEnv) (db : Db) : Db → Type 0 where
  here : Reach env db db
  next : {db1 db2 : Db} → Reach env db db1 → Step env db1 db2 → Reach env db db2

revoke_oldest-keeps :
    (user_id now n f : ℕ) (db : Db)
    → IsValid db.refresh_tokens
    → count (live_in f) db.refresh_tokens ≡ 0
    → IsValid (revoke_oldest user_id now n db).refresh_tokens
      × (count (live_in f) (revoke_oldest user_id now n db).refresh_tokens ≡ 0)
unfolding revoke_oldest
revoke_oldest-keeps user_id now zero f db v z = (v, z)
revoke_oldest-keeps user_id now (suc n) f db v z =
    elim (Option-cases (get_oldest_active_family user_id now db)) [
      | inl e ↦ rw (e, revoke_oldest) (v, z)
      | inr (g, e) ↦
          rw (e, revoke_oldest)
            (revoke_oldest-keeps user_id now n f
              (revoke_family g RevocationReason.session_limit now false db)
              (unfold revoke_family in update-revoked-IsValid _ _ now db.refresh_tokens v)
              (unfold revoke_family revoked in
                omega (
                  arith,
                  z,
                  count-update_le (live_in f) (in_family g false)
                      (revoked RevocationReason.session_limit now) db.refresh_tokens
                      (λ x. ground arith),
                )))
    ]

login-IsValid :
    (env : SessionEnv) (user_id now family_id : ℕ) (db : Db) (r : Result AuthCookieMaterial × Db)
    → count (live_in family_id) db.refresh_tokens ≡ 0
    → LoginPromise env user_id now family_id db r
    → IsValid db.refresh_tokens
    → IsValid (unishop_china.Action.settle db r).1.refresh_tokens
login-IsValid env user_id now family_id db (err e, db') fresh p v = v
login-IsValid env user_id now family_id db (ok m, db') fresh p v =
    let trimmed = revoke_oldest-keeps user_id now _ family_id db v fresh in
    Adds-IsValid p.trimmed p.token db' p.adds (rw p.trims trimmed.0)
      (rw (p.of_family, p.trims) trimmed.1) (omega (arith, p.expiry))

rotate_session-IsValid :
    (env : SessionEnv) (raw : ℕ) (cookie header : Option ℕ) (now : ℕ) (db : Db)
    (r : Result RefreshAccessResult × Db)
    → Promise env raw cookie header now db r
    → IsValid db.refresh_tokens
    → IsValid r.1.refresh_tokens
unfolding mark_token_rotated get_for_update_by_hash revoked
rotate_session-IsValid env raw cookie header now db (err e, db') (inl same) v = rw same v
rotate_session-IsValid env raw cookie header now db (err e, db') (inr w) v =
    rw w.state (update-revoked-IsValid w.selected w.reason now db.refresh_tokens v)
rotate_session-IsValid env raw cookie header now db (ok res, db') (u, _, p) v = rw p.state (
    rotate-IsValid db (env.hash_refresh_token raw) p.current p.replacement p.added now v p.found
      p.unrevoked p.adds p.same_family p.within_family)

logout_current-IsValid :
    (env : SessionEnv) (raw cookie header : Option ℕ) (now : ℕ) (db : Db)
    → IsValid db.refresh_tokens
    → IsValid (logout_current env raw cookie header now db).1.refresh_tokens
unfolding logout_current revoke_family
logout_current-IsValid env none cookie header now db v = v
logout_current-IsValid env (some raw) cookie header now db v =
    elim (logout_current-state env raw cookie header now db) [
      | inl same ↦ subst (λ d. IsValid d.refresh_tokens) (sym same) v
      | inr (f, e) ↦
          subst (λ d. IsValid d.refresh_tokens) (sym e)
            (update-revoked-IsValid _ _ now db.refresh_tokens v)
    ]

-- Every step keeps the refresh tokens well formed.
pub Step-IsValid :
    (env : SessionEnv) (db db' : Db)
    → Step env db db'
    → IsValid db.refresh_tokens
    → IsValid db'.refresh_tokens
Step-IsValid env db db' (logs_in user_id now family_id draws fresh e) v = rw e (
    login-IsValid env user_id now family_id db _ fresh
      (create_login_session-Promise env user_id now family_id draws db) v)
Step-IsValid env db db' (rotates raw cookie header now draws e) v = rw e (
    rotate_session-IsValid env raw cookie header now db _
      (rotate_session-Promise env raw cookie header now draws db) v)
Step-IsValid env db db' (logs_out raw cookie header now e) v =
    rw e (logout_current-IsValid env raw cookie header now db v)
Step-IsValid env db db' (logs_out_all user_id now e) v =
    rw e
      (unfold logout_all revoke_all_for_user in update-revoked-IsValid _ _ now db.refresh_tokens v)
Step-IsValid env db db' (elsewhere e) v = rw e v

-- In every history of logins with new family keys, rotations, logouts and writes that leave the
-- refresh tokens alone, that starts from well-formed tokens, primary keys and digests stay unique, a
-- family has at most one unrevoked token, and no token outlives its family.
pub Reach-IsValid :
    (env : SessionEnv) (db db' : Db)
    → IsValid db.refresh_tokens
    → Reach env db db'
    → IsValid db'.refresh_tokens
Reach-IsValid env db db' v here = v
Reach-IsValid env db db' v (next {db1} r st) =
    Step-IsValid env db1 _ st (Reach-IsValid env db db1 v r)
