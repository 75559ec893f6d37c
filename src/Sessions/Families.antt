-- ===== src/Sessions/Families.antt =====
-- The distinct families of the active tokens, and how revoking the oldest one lowers their number.
use unishop_china.Prelude.{
  ℕ, zero, suc, ◌+◌, ◌-◌, ◌<◌, ◌≤◌, ◌≡◌, refl, ◌∙◌, ◌⊎◌, inl, inr, Bool, true, false, ◌||◌, none,
  some, List, [], ◌∷◌, map, arith, Bool-cases, Option-cases, ◌==◌,
}
use unishop_china.Prelude.Rows.{select, update, top?}
use unishop_china.Models.{RefreshToken, RevocationReason, Db}
use unishop_china.Repositories.RefreshTokens.{
  remove, distinct, length, is_active_for, active_families, count_active_families, is_older,
  get_oldest_active_family, revoked, in_family, revoke_family,
}
use unishop_china.Sessions.Service.{revoke_oldest}

contains : ℕ → List ℕ → Bool
contains f [] = false
contains f (g ∷ gs) = f == g || contains f gs

remove_comm : (f g : ℕ) (xs : List ℕ) → remove f (remove g xs) ≡ remove g (remove f xs)
unfolding remove
remove_comm f g [] = refl
remove_comm f g (x ∷ xs) = ground (arith, remove_comm f g xs)

remove_idem : (f : ℕ) (xs : List ℕ) → remove f (remove f xs) ≡ remove f xs
unfolding remove
remove_idem f [] = refl
remove_idem f (x ∷ xs) = ground (arith, remove_idem f xs)

distinct-remove : (f : ℕ) (xs : List ℕ) → distinct (remove f xs) ≡ remove f (distinct xs)
unfolding distinct remove
distinct-remove f [] = refl
distinct-remove f (x ∷ xs) = elim (Bool-cases (f == x)) [
  | inl same ↦ ground (arith, distinct-remove f xs, remove_idem f (distinct xs))
  | inr other ↦ ground (arith, distinct-remove f xs, remove_comm x f (distinct xs))
]

length-remove-le : (f : ℕ) (xs : List ℕ) → length (remove f xs) ≤ length xs
unfolding remove
length-remove-le f [] = omega arith
length-remove-le f (x ∷ xs) = ground (arith, length-remove-le f xs)

length-remove-lt : (f : ℕ) (xs : List ℕ) → contains f xs ≡ true → length (remove f xs) < length xs
unfolding remove contains
length-remove-lt f [] h = cc
length-remove-lt f (x ∷ xs) h = ground (arith, length-remove-le f xs, length-remove-lt f xs)

contains-remove :
    (f g : ℕ) (xs : List ℕ) → (f == g) ≡ false → contains f (remove g xs) ≡ contains f xs
unfolding remove contains
contains-remove f g [] h = refl
contains-remove f g (x ∷ xs) h = ground (arith, contains-remove f g xs h)

contains-distinct : (f : ℕ) (xs : List ℕ) → contains f (distinct xs) ≡ contains f xs
unfolding distinct contains
contains-distinct f [] = refl
contains-distinct f (x ∷ xs) =
    ground (arith, contains-distinct f xs, contains-remove f x (distinct xs))

families_of : ℕ → ℕ → List RefreshToken → List ℕ
families_of user_id now rows = map (λ t. t.family_id) (select (is_active_for user_id now) rows)

-- Revoking a family takes it out of the active ones.
families_of-revoke :
    (user_id now f : ℕ) (reason : RevocationReason) (rows : List RefreshToken)
    → families_of user_id now (update (in_family f false) (revoked reason now) rows)
      ≡ remove f (families_of user_id now rows)
unfolding families_of select update is_active_for in_family revoked remove
families_of-revoke user_id now f reason [] = refl
families_of-revoke user_id now f reason (t ∷ rows) =
    ground (arith, families_of-revoke user_id now f reason rows)

top?-contains :
    (precedes : RefreshToken → RefreshToken → Bool) (rows : List RefreshToken) (t : RefreshToken)
    → top? precedes rows ≡ some t
    → contains t.family_id (map (λ t. t.family_id) rows) ≡ true
unfolding top? contains
top?-contains precedes [] t e = cc
top?-contains precedes (x ∷ rows) t e = elim (Option-cases (top? precedes rows)) [
  | inl last ↦ ground arith
  | inr (y, e') ↦ ground (arith, top?-contains precedes rows y e')
]

top?-none :
    (precedes : RefreshToken → RefreshToken → Bool) (rows : List RefreshToken)
    → top? precedes rows ≡ none
    → rows ≡ []
unfolding top?
top?-none precedes [] e = refl
top?-none precedes (x ∷ rows) e = absurd (ground arith)

-- The oldest active family is an active one, and there is none only if no family is active.
oldest_cases :
    (user_id now : ℕ) (db : Db)
    → ((get_oldest_active_family user_id now db ≡ none)
        × (active_families user_id now db.refresh_tokens ≡ []))
      ⊎ ((f : ℕ) × (get_oldest_active_family user_id now db ≡ some f)
          × (contains f (active_families user_id now db.refresh_tokens) ≡ true))
unfolding get_oldest_active_family active_families families_of distinct
oldest_cases user_id now db =
    elim (Option-cases (top? is_older (select (is_active_for user_id now) db.refresh_tokens))) [
      | inl e ↦ inl (ground arith, rw (top?-none is_older _ e))
      | inr (t, e) ↦ inr (
        t.family_id,
        ground arith,
        contains-distinct t.family_id _ ∙ top?-contains is_older _ t e,
      )
    ]

count-revoke :
    (user_id now f : ℕ) (reason : RevocationReason) (db : Db)
    → contains f (active_families user_id now db.refresh_tokens) ≡ true
    → count_active_families user_id now (revoke_family f reason now false db)
      < count_active_families user_id now db
unfolding count_active_families active_families revoke_family families_of
count-revoke user_id now f reason db h =
    rw
      (
        families_of-revoke user_id now f reason db.refresh_tokens,
        distinct-remove f (families_of user_id now db.refresh_tokens),
      )
      (length-remove-lt f _ h)

-- n rounds of the loop take n families out of the active ones, or all of them.
pub count-revoke_oldest :
    (user_id now n : ℕ) (db : Db)
    → count_active_families user_id now (revoke_oldest user_id now n db)
      ≤ count_active_families user_id now db - n
unfolding revoke_oldest
count-revoke_oldest user_id now zero db = omega arith
count-revoke_oldest user_id now (suc n) db = elim (oldest_cases user_id now db) [
  | inl (e, empty) ↦ rw (e, revoke_oldest) (unfold count_active_families in rw empty (omega arith))
  | inr (f, e, h) ↦
      rw (e, revoke_oldest)
        (omega (
          arith,
          count-revoke_oldest user_id now n
              (revoke_family f RevocationReason.session_limit now false db),
          count-revoke user_id now f RevocationReason.session_limit db h,
        ))
]

-- An added row adds one family at most.
pub active_families-cons :
    (user_id now : ℕ) (t : RefreshToken) (rows : List RefreshToken)
    → length (active_families user_id now (t ∷ rows))
      ≤ length (active_families user_id now rows) + 1
unfolding active_families select distinct
active_families-cons user_id now t rows = ground (
  arith,
  length-remove-le t.family_id
      (distinct (map (λ t. t.family_id) (select (is_active_for user_id now) rows))),
)
