-- ===== src/Repositories/RefreshTokens.antt =====
-- backend/app/repositories/token_repository.py over backend/app/models/refresh_token.py.
use unishop_china.Prelude.{
  ℕ, suc, Bool, ◌&&◌, ◌||◌, Option, none, some, List, [], ◌∷◌, map, is_some, is_none, if◌then◌else◌,
  ltb, ◌==◌,
}
use unishop_china.Prelude.Rows.{select, first?, update, top?}
use unishop_china.Models.{RefreshToken, RevocationReason, Db}

abbrev pub has_hash : ℕ → RefreshToken → Bool
has_hash token_hash t = t.token_hash == token_hash

abbrev pub has_id : ℕ → RefreshToken → Bool
has_id id t = t.id == id

-- The condition of `count_active_families` and `get_oldest_active_family`.
unfoldable pub is_active_for : ℕ → ℕ → RefreshToken → Bool
is_active_for user_id now t =
    t.user_id == user_id
    && is_none t.revoked_at
    && ltb now t.expires_at
    && ltb now t.family_expires_at

-- The row that `create_refresh_session` adds.
unfoldable pub new_token : ℕ → ℕ → ℕ → ℕ → ℕ → ℕ → ℕ → ℕ → RefreshToken
new_token id created_at user_id token_hash family_id csrf_token_hash expires_at family_expires_at =
    record {
      id = id;
      created_at = created_at;
      user_id = user_id;
      token_hash = token_hash;
      family_id = family_id;
      csrf_token_hash = csrf_token_hash;
      expires_at = expires_at;
      family_expires_at = family_expires_at;
      last_used_at = none;
      revoked_at = none;
      revocation_reason = none;
      replaced_by_token_id = none;
    }

-- `none` is the `IntegrityError` of the primary key or of the unique `token_hash`.
unfoldable pub create_refresh_session : RefreshToken → Db → Option Db
create_refresh_session t db =
    if is_some (first? (has_id t.id) db.refresh_tokens)
      || is_some (first? (has_hash t.token_hash) db.refresh_tokens)
    then none
    else some (record db { refresh_tokens = t ∷ db.refresh_tokens })

unfoldable pub get_for_update_by_hash : ℕ → Db → Option RefreshToken
get_for_update_by_hash token_hash db = first? (has_hash token_hash) db.refresh_tokens

unfoldable pub token_hash_exists : ℕ → Db → Bool
token_hash_exists token_hash db = is_some (first? (has_hash token_hash) db.refresh_tokens)

-- Removes every copy of a value.
unfoldable pub remove : ℕ → List ℕ → List ℕ
remove f [] = []
remove f (g ∷ gs) = if f == g then remove f gs else g ∷ remove f gs

-- `distinct(...)`: each value once.
unfoldable pub distinct : List ℕ → List ℕ
distinct [] = []
distinct (f ∷ fs) = f ∷ remove f (distinct fs)

abbrev pub length : List ℕ → ℕ
length [] = 0
length (f ∷ fs) = suc (length fs)

-- The families of the rows that are active for the user.
unfoldable pub active_families : ℕ → ℕ → List RefreshToken → List ℕ
active_families user_id now rows =
    distinct (map (λ t. t.family_id) (select (is_active_for user_id now) rows))

unfoldable pub count_active_families : ℕ → ℕ → Db → ℕ
count_active_families user_id now db = length (active_families user_id now db.refresh_tokens)

-- `order_by(RefreshToken.created_at, RefreshToken.id)`
unfoldable pub is_older : RefreshToken → RefreshToken → Bool
is_older t u = ltb t.created_at u.created_at || (t.created_at == u.created_at && ltb t.id u.id)

unfoldable pub get_oldest_active_family : ℕ → ℕ → Db → Option ℕ
get_oldest_active_family user_id now db =
    elim (top? is_older (select (is_active_for user_id now) db.refresh_tokens)) [
      | none ↦ none
      | some t ↦ some t.family_id
    ]

-- The values that every revoking update writes.
unfoldable pub revoked : RevocationReason → ℕ → RefreshToken → RefreshToken
revoked reason now t = record t {
  last_used_at = some now;
  revoked_at = some now;
  revocation_reason = some reason;
}

-- The values that `mark_token_rotated` assigns to the loaded row.
unfoldable pub rotated_to : ℕ → ℕ → RefreshToken → RefreshToken
unfolding revoked
rotated_to replacement_id now t = record (revoked RevocationReason.rotated now t) {
  replaced_by_token_id = some replacement_id;
}

unfoldable pub mark_token_rotated : RefreshToken → ℕ → ℕ → Db → Db
mark_token_rotated token replacement_id now db = record db {
  refresh_tokens = update (has_id token.id) (rotated_to replacement_id now) db.refresh_tokens;
}

-- The condition of `revoke_family`.
unfoldable pub in_family : ℕ → Bool → RefreshToken → Bool
in_family family_id include_revoked t =
    t.family_id == family_id && (include_revoked || is_none t.revoked_at)

unfoldable pub revoke_family : ℕ → RevocationReason → ℕ → Bool → Db → Db
revoke_family family_id reason now include_revoked db = record db {
  refresh_tokens =
      update (in_family family_id include_revoked) (revoked reason now) db.refresh_tokens;
}

-- The condition of `revoke_all_for_user`.
unfoldable pub is_unrevoked_of : ℕ → RefreshToken → Bool
is_unrevoked_of user_id t = t.user_id == user_id && is_none t.revoked_at

unfoldable pub revoke_all_for_user : ℕ → RevocationReason → ℕ → Db → Db
revoke_all_for_user user_id reason now db = record db {
  refresh_tokens = update (is_unrevoked_of user_id) (revoked reason now) db.refresh_tokens;
}
