-- ===== src/Sellers/Service.antt =====
-- `SellerVerificationService`: the calls that change the attempts. The answer of a call is only
-- whether it was carried out, or the status of its `VerificationError`; the response is a reading
-- of the row that the call leaves.
use unishop_china.Prelude.{
  ℕ, ◌+◌, Bool, true, false, not, ◌&&◌, Option, none, some, ◌∷◌, is_some, ltb, leb, ◌==◌,
  if◌then◌else◌, is_truthy,
}
use unishop_china.Prelude.Rows.{first?, update}
use unishop_china.Accounts.Service.{Authorization, lock_active_user, require_db_admin}
use unishop_china.Sellers.Tables
use unishop_china.Sellers.Tables.{
  VerificationStatus, EvidenceType, SellerVerification, SellerEvidence, AuditEvent, SellerDb,
  is_pending, is_under_review, is_rejected,
}

pub data Reply : Type 0 where
  done : Reply
  refused : ℕ → Reply

-- What the generators and the clock give to `start_or_submit`; `deleted` says whether the storage
-- deletes an old file.
pub record Draw : Type 0 where
  pub id : ℕ
  pub created_at : ℕ
  pub review_reference : ℕ
  pub challenge : ℕ
  pub now : ℕ
  pub deleted : Bool

pub data Command : Type 0 where
  start renew_challenge submit invalid : Command

abbrev pub is_active_of : ℕ → SellerVerification → Bool
is_active_of user_id v = v.user_id == user_id && not (is_rejected v.status)

module _ (challenge_lifetime : ℕ) where
  -- The row of a new attempt.
  unfoldable pub new_attempt : ℕ → Draw → SellerVerification
  new_attempt actor_id draw = record {
    id = draw.id;
    created_at = draw.created_at;
    user_id = actor_id;
    review_reference = draw.review_reference;
    status = VerificationStatus.pending;
    handwritten_challenge = draw.challenge;
    challenge_expires_at = draw.now + challenge_lifetime;
    rejection_reason = none;
    reviewed_by = none;
    submitted_at = none;
    reviewed_at = none;
  }

  -- `db.add(row)` with the constraint `uq_seller_active_user`, whose `IntegrityError` is not handled.
  unfoldable pub add_attempt : ℕ → Draw → SellerDb → Reply × SellerDb
  unfolding new_attempt
  add_attempt actor_id draw db =
      if is_some (first? (is_active_of actor_id) db.verifications)
      then (Reply.refused 500, db)
      else (
        Reply.done,
        Tables.record_audit draw.id actor_id AuditEvent.start
            (record db { verifications = new_attempt actor_id draw ∷ db.verifications }),
      )

  unfoldable pub start_attempt : ℕ → Draw → Option SellerVerification → SellerDb → Reply × SellerDb
  start_attempt actor_id draw none db = add_attempt actor_id draw db
  start_attempt actor_id draw (some row) db =
      if is_rejected row.status then add_attempt actor_id draw db else (Reply.refused 409, db)

  -- A new challenge; the handwritten evidence of the old one is deleted.
  unfoldable pub renew : ℕ → Draw → Option SellerVerification → SellerDb → Reply × SellerDb
  renew actor_id draw none db = (Reply.refused 409, db)
  renew actor_id draw (some row) db =
      if is_pending row.status
      then (let previous = Tables.evidence_of row.id EvidenceType.handwritten_code db in
          (
            Reply.done,
            Tables.delete_file draw.deleted previous (
                Tables.record_audit row.id actor_id AuditEvent.challenge_renewed (
                  Tables.delete_evidence previous (
                    Tables.assign row.id
                      (λ v. record v {
                        handwritten_challenge = draw.challenge;
                        challenge_expires_at = draw.now + challenge_lifetime;
                      })
                      db))),
          ))
      else (Reply.refused 409, db)

  -- A complete draft with a live challenge goes to the review.
  unfoldable pub submit_draft : ℕ → Draw → Option SellerVerification → SellerDb → Reply × SellerDb
  submit_draft actor_id draw none db = (Reply.refused 409, db)
  submit_draft actor_id draw (some row) db =
      if not (is_pending row.status)
      then (Reply.refused 409, db)
      else if leb row.challenge_expires_at draw.now
      then (Reply.refused 409, db)
      else if not (Tables.is_complete row.id db)
      then (Reply.refused 409, db)
      else (
        Reply.done,
        Tables.record_audit row.id actor_id AuditEvent.submission (
            Tables.assign row.id
              (λ v. record v {
                status = VerificationStatus.under_review;
                submitted_at = some draw.now;
              })
              db),
      )

  unfoldable pub dispatch :
      Command → ℕ → Draw → Option SellerVerification → SellerDb → Reply × SellerDb
  dispatch Command.start actor_id draw row db = start_attempt actor_id draw row db
  dispatch Command.renew_challenge actor_id draw row db = renew actor_id draw row db
  dispatch Command.submit actor_id draw row db = submit_draft actor_id draw row db
  dispatch Command.invalid actor_id draw row db = (Reply.refused 422, db)

  unfoldable pub start_or_submit : Command → ℕ → Draw → SellerDb → Reply × SellerDb
  start_or_submit command actor_id draw db = elim (lock_active_user actor_id true db.accounts) [
    | Authorization.denied status ↦ (Reply.refused status, db)
    | Authorization.granted user ↦ dispatch command actor_id draw (Tables.latest actor_id db) db
  ]

-- The image, sanitized, and what the storage gives: the key of the stored file, or `none` where
-- `storage.upload` raises.
pub record Upload : Type 0 where
  pub evidence_id : ℕ
  pub file_hash : ℕ
  pub mime_type : ℕ
  pub size : ℕ
  pub key : Option ℕ
  pub now : ℕ
  pub deleted : Bool

-- The test of the challenge that comes with handwritten evidence.
unfoldable pub may_upload : EvidenceType → Option ℕ → ℕ → SellerVerification → Bool
may_upload EvidenceType.handwritten_code none now row = false
may_upload EvidenceType.handwritten_code (some challenge) now row =
    ltb now row.challenge_expires_at
    && is_truthy (some challenge)
    && challenge == row.handwritten_challenge
may_upload EvidenceType.selfie challenge now row = true
may_upload EvidenceType.wechat_proof challenge now row = true

-- The evidence row after an upload: the existing one is overwritten, or one is added.
unfoldable pub put_evidence :
    ℕ → EvidenceType → Upload → ℕ → Option SellerEvidence → SellerDb → SellerDb
put_evidence verification_id kind image key none db = record db {
  evidence =
      record {
        id = image.evidence_id;
        verification_id = verification_id;
        evidence_type = kind;
        storage_key = key;
        file_hash = image.file_hash;
        mime_type = image.mime_type;
        size = image.size;
      }
      ∷ db.evidence;
}
put_evidence verification_id kind image key (some existing) db = record db {
  evidence =
      update (λ e. e.id == existing.id)
        (λ e. record e {
          storage_key = key;
          file_hash = image.file_hash;
          mime_type = image.mime_type;
          size = image.size;
        })
        db.evidence;
}

unfoldable pub store_evidence :
    ℕ → EvidenceType → Upload → Option ℕ → SellerVerification → SellerDb → Reply × SellerDb
store_evidence actor_id kind image none row db = (Reply.refused 500, db)
store_evidence actor_id kind image (some key) row db =
    let existing = Tables.evidence_of row.id kind db in
    (
      Reply.done,
      Tables.delete_file image.deleted existing (
          Tables.record_audit row.id actor_id AuditEvent.upload
            (put_evidence row.id kind image key existing (record db { files = key ∷ db.files }))),
    )

unfoldable pub upload_to :
    ℕ → EvidenceType → Upload → Option ℕ → Option SellerVerification → SellerDb → Reply × SellerDb
upload_to actor_id kind image challenge none db = (Reply.refused 409, db)
upload_to actor_id kind image challenge (some row) db =
    if not (is_pending row.status)
    then (Reply.refused 409, db)
    else if not (may_upload kind challenge image.now row)
    then (Reply.refused 409, db)
    else store_evidence actor_id kind image image.key row db

unfoldable pub upload : ℕ → EvidenceType → Upload → Option ℕ → SellerDb → Reply × SellerDb
upload actor_id kind image challenge db = elim (lock_active_user actor_id true db.accounts) [
  | Authorization.denied status ↦ (Reply.refused status, db)
  | Authorization.granted user ↦
      upload_to actor_id kind image challenge (Tables.latest actor_id db) db
]

-- The locks of a review, in the order of the keys; the first that fails decides.
unfoldable pub lock_one : ℕ → ℕ → SellerDb → Option ℕ
lock_one owner user_id db = elim (lock_active_user user_id (user_id == owner) db.accounts) [
  | Authorization.denied status ↦ some status
  | Authorization.granted user ↦ none
]

unfoldable pub lock_both : ℕ → ℕ → SellerDb → Option ℕ
unfolding lock_one
lock_both owner actor_id db =
    let first = if ltb owner actor_id then owner else actor_id in
    let second = if ltb owner actor_id then actor_id else owner in
    elim (lock_one owner first db) [ some status ↦ some status | none ↦ lock_one owner second db ]

-- The assignments of a review.
unfoldable pub reviewed : ℕ → Option ℕ → ℕ → SellerVerification → SellerVerification
reviewed actor_id reason now v = record v {
  status = if is_some reason then VerificationStatus.rejected else VerificationStatus.verified;
  rejection_reason = reason;
  reviewed_by = some actor_id;
  reviewed_at = some now;
}

-- The review after the locks and the administrator check.
unfoldable pub review_row : ℕ → Option ℕ → ℕ → SellerVerification → SellerDb → Reply × SellerDb
review_row actor_id reason now row db =
    if row.user_id == actor_id
    then (Reply.refused 403, db)
    else if not (is_under_review row.status)
    then (Reply.refused 409, db)
    else if not (Tables.is_complete row.id db)
    then (Reply.refused 409, db)
    else (
      Reply.done,
      Tables.record_audit row.id actor_id
          (if is_some reason then AuditEvent.rejection else AuditEvent.approval)
          (Tables.assign row.id (reviewed actor_id reason now) db),
    )

unfoldable pub review_locked : ℕ → Option ℕ → ℕ → SellerVerification → SellerDb → Reply × SellerDb
review_locked actor_id reason now row db = elim (lock_both row.user_id actor_id db) [
  | some status ↦ (Reply.refused status, db)
  | none ↦ elim (require_db_admin actor_id db.accounts) [
    | Authorization.denied status ↦ (Reply.refused status, db)
    | Authorization.granted u ↦ review_row actor_id reason now row db
  ]
]

unfoldable pub review : ℕ → ℕ → Option ℕ → ℕ → SellerDb → Reply × SellerDb
review actor_id reference reason now db = elim (Tables.by_reference reference db) [
  | none ↦ (Reply.refused 404, db)
  | some row ↦ review_locked actor_id reason now row db
]
