-- ===== src/Sellers/Invariant.antt =====
-- The attempts stay well formed.
use unishop_china.Prelude.{
  ℕ, ◌+◌, ◌≤◌, ◌≡◌, refl, true, not, ◌&&◌, Option, none, some, List, ◌∷◌, arith, is_some, ◌==◌,
  ==_refl,
}
use unishop_china.Prelude.Rows.{first?, update, count, All}
use unishop_china.Prelude.Rows.Counting.{count-update_eq, count-none}
use unishop_china.Prelude.Rows.Unique.{
  Only, first?-Only, top?-Only, count-update-Only, All-update-Only,
}
use unishop_china.Sellers.Tables
use unishop_china.Sellers.Tables.{
  VerificationStatus, SellerVerification, SellerDb, has_id, is_rejected, is_pending,
  is_under_review,
}
use unishop_china.Sellers.Service.{
  Reply, Draw, Command, is_active_of, new_attempt, reviewed, start_or_submit, review,
}
use unishop_china.Sellers.Review.{ReviewPromise, review-Promise}
use unishop_china.Sellers.Lifecycle.{renewed}
use unishop_china.Sellers.Commands.{CommandPromise, start_or_submit-Promise}

-- `ck_seller_transition_dates` and `ck_seller_rejection`
abbrev pub Dated : SellerVerification → Type 0
Dated v =
    (is_some v.submitted_at ≡ not (is_pending v.status))
    × (is_some v.reviewed_at ≡ not (is_pending v.status) && not (is_under_review v.status))
    × (is_some v.rejection_reason ≡ is_rejected v.status)

-- Keys are unique, a user has at most one attempt that is not rejected, and every attempt satisfies
-- the constraints of its table.
pub record IsValid (rows : List SellerVerification) : Type 0 where
  pub unique_id : (i : ℕ) → count (has_id i) rows ≤ 1
  pub one_active : (u : ℕ) → count (is_active_of u) rows ≤ 1
  pub dated : All Dated rows

assigned-IsValid :
    (f : SellerVerification → SellerVerification) (row : SellerVerification)
    (rows : List SellerVerification)
    → ((v : SellerVerification) → (f v).id ≡ v.id)
    → ((u : ℕ) → is_active_of u (f row) ≡ true → is_active_of u row ≡ true)
    → (Dated row → Dated (f row))
    → Only (has_id row.id) row rows
    → IsValid rows
    → IsValid (update (has_id row.id) f rows)
assigned-IsValid f row rows same active dates only v = record {
  unique_id = λ i.
      rw (count-update_eq (has_id i) (has_id row.id) f rows (λ x. ground (arith, same x)))
        (v.unique_id i);
  one_active = λ u. omega (
    arith,
    v.one_active u,
    count-update-Only (is_active_of u) (has_id row.id) f row rows only (active u),
  );
  dated = All-update-Only Dated (has_id row.id) f row rows only dates v.dated;
}

added-IsValid :
    (row : SellerVerification) (rows : List SellerVerification)
    → count (has_id row.id) rows ≡ 0
    → first? (is_active_of row.user_id) rows ≡ none
    → Dated row
    → IsValid rows
    → IsValid (row ∷ rows)
unfolding count
added-IsValid row rows fresh free dates v = record {
  unique_id = λ i. ground (arith, v.unique_id i);
  one_active = λ u. ground (arith, v.one_active u, count-none (is_active_of row.user_id) rows free);
  dated = (dates, v.dated);
}

renewed-verifications :
    (lifetime actor_id : ℕ) (draw : Draw) (row : SellerVerification) (db : SellerDb)
    → (renewed lifetime actor_id draw row db).verifications
      ≡ update
          (has_id row.id)
          (λ v. record v {
            handwritten_challenge = draw.challenge;
            challenge_expires_at = draw.now + lifetime;
          })
          db.verifications
unfolding Tables.delete_file Tables.record_audit Tables.delete_evidence Tables.assign
renewed-verifications lifetime actor_id draw row db = ground arith

latest-Only :
    (actor_id : ℕ) (row : SellerVerification) (db : SellerDb)
    → IsValid db.verifications
    → Tables.latest actor_id db ≡ some row
    → Only (has_id row.id) row db.verifications
unfolding Tables.latest
latest-Only actor_id row db v found =
    top?-Only Tables.is_newer (has_id row.id) (λ w. w.user_id == actor_id) db.verifications row
      (v.unique_id row.id) found (==_refl row.id)

-- A command, carried out or refused, leaves the keys unique, at most one attempt of a user that is
-- not rejected, and the dates and reasons of every attempt as the constraints of the table demand,
-- if the key drawn for a new attempt is new.
pub start_or_submit-IsValid :
    (lifetime actor_id : ℕ) (command : Command) (draw : Draw) (db : SellerDb)
    → count (has_id draw.id) db.verifications ≡ 0
    → IsValid db.verifications
    → IsValid (start_or_submit lifetime command actor_id draw db).1.verifications
unfolding Tables.record_audit Tables.assign new_attempt
start_or_submit-IsValid lifetime actor_id command draw db fresh v =
    go command _ (start_or_submit-Promise lifetime actor_id draw db command)
  where
    go :
        (c : Command) (result : Reply × SellerDb)
        → CommandPromise lifetime actor_id draw db c result
        → IsValid result.1.verifications
    go c (Reply.refused status, db') same = rw same v
    go Command.start (Reply.done, db') (locked, (free, none_active, state)) = rw state (
        added-IsValid (new_attempt lifetime actor_id draw) db.verifications fresh none_active
          (refl, refl, refl) v)
    go Command.renew_challenge (Reply.done, db') (locked, (row, found, pending, state)) =
        rw (state, renewed-verifications lifetime actor_id draw row db)
          (assigned-IsValid
            (λ w. record w {
              handwritten_challenge = draw.challenge;
              challenge_expires_at = draw.now + lifetime;
            })
            row db.verifications (λ w. refl) (λ u h. h) (λ d. d)
            (latest-Only actor_id row db v found) v)
    go Command.submit (Reply.done, db') (locked, (row, found, pending, live, complete, state)) =
        rw state (
          assigned-IsValid
            (λ w. record w {
              status = VerificationStatus.under_review;
              submitted_at = some draw.now;
            })
            row db.verifications (λ w. refl) (λ u h. ground arith) (λ d. ground arith)
            (latest-Only actor_id row db v found) v)
    go Command.invalid (Reply.done, db') (locked, bad) = absurd bad

-- A review, carried out or refused, keeps the keys unique, at most one attempt of a user that is not
-- rejected, and the dates and reasons of every attempt as the constraints of the table demand.
pub review-IsValid :
    (actor_id reference : ℕ) (reason : Option ℕ) (now : ℕ) (db : SellerDb)
    → IsValid db.verifications
    → IsValid (review actor_id reference reason now db).1.verifications
unfolding Tables.record_audit Tables.assign Tables.by_reference reviewed
review-IsValid actor_id reference reason now db v =
    go _ (review-Promise actor_id reference reason now db)
  where
    go :
        (result : Reply × SellerDb)
        → ReviewPromise actor_id reference reason now db result
        → IsValid result.1.verifications
    go (Reply.refused status, db') same = rw same v
    go (Reply.done, db') r = rw r.state (
        assigned-IsValid (reviewed actor_id reason now) r.row db.verifications (λ w. refl)
          (λ u h. ground (arith, r.submitted)) (λ d. ground (arith, r.submitted))
          (first?-Only (has_id r.row.id) (Tables.has_reference reference) db.verifications r.row
            (v.unique_id r.row.id) r.found (==_refl r.row.id))
          v)
