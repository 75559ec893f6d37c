-- ===== src/Sessions/Invariant.antt =====
-- The well-formedness of the refresh tokens, and that the statements of the repository keep it.
use unishop_china.Prelude.{
  ℕ, ◌<◌, ◌≤◌, ◌≡◌, Bool, false, ◌&&◌, none, some, List, arith, is_none, ◌==◌, ==_refl,
}
use unishop_china.Prelude.Rows.{first?, count, update, All}
use unishop_china.Prelude.Rows.Counting.{
  count-update_eq, count-update_le, count-pos, count-update_lt, All-update, count-none,
}
use unishop_china.Models.{RefreshToken, RevocationReason, Db}
use unishop_china.Repositories.RefreshTokens.{has_id, has_hash, revoked, rotated_to}
use unishop_china.Sessions.Creation.{Adds}

-- A token of the family that can still be rotated, its expiry aside.
abbrev pub live_in : ℕ → RefreshToken → Bool
live_in family_id t = t.family_id == family_id && is_none t.revoked_at

abbrev pub WithinFamily : RefreshToken → Type 0
WithinFamily t = t.expires_at ≤ t.family_expires_at

-- Primary keys and digests are unique, a family has at most one unrevoked token, and no token
-- outlives its family.
pub record IsValid (rows : List RefreshToken) : Type 0 where
  pub unique_id : (i : ℕ) → count (has_id i) rows ≤ 1
  pub unique_hash : (h : ℕ) → count (has_hash h) rows ≤ 1
  pub one_live : (f : ℕ) → count (live_in f) rows ≤ 1
  pub within_family : All WithinFamily rows

-- Every revoking update keeps the invariant, whichever rows it selects.
pub update-revoked-IsValid :
    (q : RefreshToken → Bool) (reason : RevocationReason) (now : ℕ) (rows : List RefreshToken)
    → IsValid rows
    → IsValid (update q (revoked reason now) rows)
unfolding revoked
update-revoked-IsValid q reason now rows v = record {
  unique_id = λ i.
      rw (count-update_eq (has_id i) q (revoked reason now) rows (λ x. ground arith))
        (v.unique_id i);
  unique_hash = λ h.
      rw (count-update_eq (has_hash h) q (revoked reason now) rows (λ x. ground arith))
        (v.unique_hash h);
  one_live = λ f. omega (
    arith,
    v.one_live f,
    count-update_le (live_in f) q (revoked reason now) rows (λ x. ground arith),
  );
  within_family = All-update WithinFamily q (revoked reason now) rows (λ x h. h) v.within_family;
}

-- An added row keeps it, if its family has no unrevoked token.
pub Adds-IsValid :
    (db : Db) (t : RefreshToken) (db' : Db)
    → Adds db t db'
    → IsValid db.refresh_tokens
    → count (live_in t.family_id) db.refresh_tokens ≡ 0
    → WithinFamily t
    → IsValid db'.refresh_tokens
unfolding count
Adds-IsValid db t db' a v fresh w = rw a.state (record {
  unique_id =
      λ i. ground (arith, v.unique_id i, count-none (has_id t.id) db.refresh_tokens a.new_id);
  unique_hash = λ h.
      ground
        (arith, v.unique_hash h, count-none (has_hash t.token_hash) db.refresh_tokens a.new_hash);
  one_live = λ f. ground (arith, v.one_live f);
  within_family = (w, v.within_family);
})

-- A rotation adds a token to the family of the row found and revokes that row, and keeps it.
pub rotate-IsValid :
    (db : Db) (hash : ℕ) (current t : RefreshToken) (db' : Db) (now : ℕ)
    → IsValid db.refresh_tokens
    → first? (has_hash hash) db.refresh_tokens ≡ some current
    → current.revoked_at ≡ none
    → Adds db t db'
    → t.family_id ≡ current.family_id
    → WithinFamily t
    → IsValid (update (has_id current.id) (rotated_to t.id now) db'.refresh_tokens)
unfolding rotated_to count update revoked
rotate-IsValid db hash current t db' now v found live a same w = rw a.state (record {
  unique_id = λ i.
      ground
        (arith, v.unique_id i, count-none (has_id t.id) db.refresh_tokens a.new_id, keeps_id i);
  unique_hash = λ h. ground (
    arith,
    v.unique_hash h,
    count-none (has_hash t.token_hash) db.refresh_tokens a.new_hash,
    keeps_hash h,
  );
  one_live = λ f. ground (arith, v.one_live f, v.one_live current.family_id, falls f, drops, other);
  within_family = (
    ground arith,
    All-update WithinFamily (has_id current.id) mark db.refresh_tokens (λ x h. h) v.within_family,
  );
})
  where
    mark : RefreshToken → RefreshToken
    mark = rotated_to t.id now

    keeps_id :
        (i : ℕ)
        → count (has_id i) (update (has_id current.id) mark db.refresh_tokens)
          ≡ count (has_id i) db.refresh_tokens
    keeps_id i =
        count-update_eq (has_id i) (has_id current.id) mark db.refresh_tokens (λ x. ground arith)

    keeps_hash :
        (h : ℕ)
        → count (has_hash h) (update (has_id current.id) mark db.refresh_tokens)
          ≡ count (has_hash h) db.refresh_tokens
    keeps_hash h =
        count-update_eq (has_hash h) (has_id current.id) mark db.refresh_tokens (λ x. ground arith)

    falls :
        (f : ℕ)
        → count (live_in f) (update (has_id current.id) mark db.refresh_tokens)
          ≤ count (live_in f) db.refresh_tokens
    falls f =
        count-update_le (live_in f) (has_id current.id) mark db.refresh_tokens (λ x. ground arith)

    drops :
        count (live_in current.family_id) (update (has_id current.id) mark db.refresh_tokens)
        < count (live_in current.family_id) db.refresh_tokens
    drops =
        count-update_lt (live_in current.family_id) (has_id current.id) (has_hash hash) mark
          db.refresh_tokens current (λ x. ground arith) found (ground arith) (ground arith)

    other : (current.id == t.id) ≡ false
    other = ground (
      arith,
      count-none (has_id t.id) db.refresh_tokens a.new_id,
      count-pos (has_id current.id) (has_hash hash) db.refresh_tokens current found
          (==_refl current.id),
    )
