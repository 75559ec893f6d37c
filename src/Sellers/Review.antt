-- ===== src/Sellers/Review.antt =====
-- What a review promises.
use unishop_china.Prelude.{
  ℕ, ◌≡◌, ◌≢◌, refl, true, Bool, ap, subst, ◌∙◌, ◌∷◌, ◌&&◌, ==_refl, Option, none, some, arith,
  Bool-cases, Option-cases, inl, inr, ◌⊎◌, ltb, ◌==◌, is_some, if◌then◌else◌,
}
use unishop_china.Prelude.Rows.{first?, update}
use unishop_china.Models.{User, UserRoleType, AccountStatus, is_active_lem}
use unishop_china.Repositories.Users
use unishop_china.Repositories.Users.{is_role}
use unishop_china.Accounts.Service.{Authorization, lock_active_user, require_db_admin, is_admin_row}
use unishop_china.Sellers.Tables
use unishop_china.Sellers.Tables.{
  VerificationStatus, EvidenceType, SellerVerification, AuditEvent, SellerDb, is_under_review,
}
use unishop_china.Sellers.Service.{
  Reply, lock_one, lock_both, reviewed, review_row, review_locked, review,
}

pub Authorization-cases :
    {A : Type 0} (a : Authorization A)
    → ((x : A) × (a ≡ Authorization.granted x)) ⊎ ((status : ℕ) × (a ≡ Authorization.denied status))
Authorization-cases (Authorization.granted x) = inl (x, refl)
Authorization-cases (Authorization.denied status) = inr (status, refl)

-- The account that a lock grants.
locked_lem :
    (owner user_id : ℕ) (db : SellerDb)
    → lock_one owner user_id db ≡ none
    → (user : User) × (lock_active_user user_id (user_id == owner) db.accounts
        ≡ Authorization.granted user)
unfolding lock_one
locked_lem owner user_id db h =
    elim (Authorization-cases (lock_active_user user_id (user_id == owner) db.accounts)) [
      | inl granted ↦ granted
      | inr (status, e) ↦ absurd (ground arith)
    ]

both_lem :
    (owner actor_id : ℕ) (db : SellerDb)
    → lock_both owner actor_id db ≡ none
    → (lock_one owner owner db ≡ none) × (lock_one owner actor_id db ≡ none)
unfolding lock_both
both_lem owner actor_id db h = elim (Bool-cases (ltb owner actor_id)) [
  | inl before ↦ elim (Option-cases (lock_one owner owner db)) [
    | inl free ↦ (free, ground arith)
    | inr (status, e) ↦ absurd (ground arith)
  ]
  | inr after ↦ elim (Option-cases (lock_one owner actor_id db)) [
    | inl free ↦ (ground arith, free)
    | inr (status, e) ↦ absurd (ground arith)
  ]
]

-- What a review decides and records: a reason rejects.
abbrev pub decided : Option ℕ → VerificationStatus
decided none = VerificationStatus.verified
decided (some reason) = VerificationStatus.rejected

abbrev pub audited : Option ℕ → AuditEvent
audited none = AuditEvent.approval
audited (some reason) = AuditEvent.rejection

-- An active account.
abbrev pub IsGranted : ℕ → User → SellerDb → Type 0
IsGranted user_id user db =
    (Users.get_by_id user_id db.accounts ≡ some user) × (user.account_status ≡ AccountStatus.active)

granted_lem :
    (user_id : ℕ) (eligible : Bool) (user : User) (db : SellerDb)
    → lock_active_user user_id eligible db.accounts ≡ Authorization.granted user
    → IsGranted user_id user db
unfolding lock_active_user
granted_lem user_id eligible user db e = elim (Option-cases (Users.get_by_id user_id db.accounts)) [
  | inl missing ↦ absurd (ground arith)
  | inr (u, found) ↦
      let same : u ≡ user = ground arith in
      (found ∙ ap some same, is_active_lem user.account_status (ground arith))
]

contacts_lem :
    (user_id : ℕ) (user : User) (db : SellerDb)
    → lock_active_user user_id true db.accounts ≡ Authorization.granted user
    → (user.email_verified ≡ true) × (user.phone_verified ≡ true)
unfolding lock_active_user
contacts_lem user_id user db e = elim (Option-cases (Users.get_by_id user_id db.accounts)) [
  | inl missing ↦ absurd (ground arith)
  | inr (u, found) ↦ let same : u ≡ user = ground arith in (ground arith, ground arith)
]

status_lem :
    (s : VerificationStatus) → is_under_review s ≡ true → s ≡ VerificationStatus.under_review
status_lem VerificationStatus.under_review e = refl
status_lem VerificationStatus.pending e = absurd (ground arith)
status_lem VerificationStatus.verified e = absurd (ground arith)
status_lem VerificationStatus.rejected e = absurd (ground arith)

admin_lem :
    (actor_id : ℕ) (db : SellerDb)
    → require_db_admin actor_id db.accounts ≡ Authorization.granted tt
    → is_some
        (first? (λ r. r.user_id == actor_id && is_role r.role UserRoleType.admin) db.accounts.roles)
      ≡ true
unfolding require_db_admin is_admin_row
admin_lem actor_id db e =
    elim (Option-cases (
      first? (λ r. r.user_id == actor_id && is_role r.role UserRoleType.admin) db.accounts.roles)) [
        | inl missing ↦ absurd (ground arith)
        | inr (r, found) ↦ rw found refl
      ]

complete_lem :
    (id : ℕ) (db : SellerDb)
    → Tables.is_complete id db ≡ true
    → (is_some (Tables.evidence_of id EvidenceType.selfie db) ≡ true)
      × (is_some (Tables.evidence_of id EvidenceType.wechat_proof db) ≡ true)
      × (is_some (Tables.evidence_of id EvidenceType.handwritten_code db) ≡ true)
unfolding Tables.is_complete
complete_lem id db e = (ground arith, ground arith, ground arith)

module _ (actor_id reference : ℕ) (reason : Option ℕ) (now : ℕ) (db : SellerDb) where
  pub record IsReview (db' : SellerDb) : Type 0 where
    pub row : SellerVerification
    pub owner : User
    pub actor : User
    pub found : Tables.by_reference reference db ≡ some row
    pub submitted : is_under_review row.status ≡ true
    pub complete : Tables.is_complete row.id db ≡ true
    pub other_person : row.user_id ≢ actor_id
    pub owner_locked :
        lock_active_user row.user_id (row.user_id == row.user_id) db.accounts
        ≡ Authorization.granted owner
    pub actor_locked :
        lock_active_user actor_id (actor_id == row.user_id) db.accounts
        ≡ Authorization.granted actor
    pub is_admin : require_db_admin actor_id db.accounts ≡ Authorization.granted tt
    pub under_review : row.status ≡ VerificationStatus.under_review
    pub selfie : is_some (Tables.evidence_of row.id EvidenceType.selfie db) ≡ true
    pub wechat_proof : is_some (Tables.evidence_of row.id EvidenceType.wechat_proof db) ≡ true
    pub handwritten_code :
        is_some (Tables.evidence_of row.id EvidenceType.handwritten_code db) ≡ true
    pub owner_granted :
        IsGranted row.user_id owner db
        × (owner.email_verified ≡ true)
        × (owner.phone_verified ≡ true)
    pub actor_granted : IsGranted actor_id actor db
    pub admin_role :
        is_some (
          first?
            (λ r. r.user_id == actor_id && is_role r.role UserRoleType.admin)
            db.accounts.roles)
        ≡ true
    -- The decision, its author, its time and its reason are written to the attempt, and the audit
    -- gets one entry; nothing else is written.
    pub written : db' ≡ record db {
      verifications =
          update
            (λ v. v.id == row.id)
            (λ v. record v {
              status = decided reason;
              rejection_reason = reason;
              reviewed_by = some actor_id;
              reviewed_at = some now;
            })
            db.verifications;
      audits =
          record { verification_id = row.id; actor_id = actor_id; event = audited reason }
          ∷ db.audits;
    }
    pub state :
        db'
        ≡ Tables.record_audit row.id actor_id
            (if is_some reason then AuditEvent.rejection else AuditEvent.approval)
            (Tables.assign row.id (reviewed actor_id reason now) db)

  -- What `review` promises.
  abbrev pub ReviewPromise : Reply × SellerDb → Type 0
  ReviewPromise (Reply.done, db') = IsReview db'
  ReviewPromise (Reply.refused status, db') = db' ≡ db

  own_lem :
      (id : ℕ) (owner : User)
      → lock_active_user id (id == id) db.accounts ≡ Authorization.granted owner
      → lock_active_user id true db.accounts ≡ Authorization.granted owner
  own_lem id owner e =
      subst (λ b. lock_active_user id b db.accounts ≡ Authorization.granted owner) (==_refl id) e

  written_lem :
      (why : Option ℕ) (row : SellerVerification)
      → Tables.record_audit row.id actor_id
          (if is_some why then AuditEvent.rejection else AuditEvent.approval)
          (Tables.assign row.id (reviewed actor_id why now) db)
        ≡ record db {
          verifications =
              update
                (λ v. v.id == row.id)
                (λ v. record v {
                  status = decided why;
                  rejection_reason = why;
                  reviewed_by = some actor_id;
                  reviewed_at = some now;
                })
                db.verifications;
          audits =
              record { verification_id = row.id; actor_id = actor_id; event = audited why }
              ∷ db.audits;
        }
  unfolding Tables.record_audit Tables.assign reviewed
  written_lem none row = refl
  written_lem (some why) row = refl

  row-Promise :
      (row : SellerVerification) (owner actor : User)
      → Tables.by_reference reference db ≡ some row
      → lock_active_user row.user_id (row.user_id == row.user_id) db.accounts
        ≡ Authorization.granted owner
      → lock_active_user actor_id (actor_id == row.user_id) db.accounts
        ≡ Authorization.granted actor
      → require_db_admin actor_id db.accounts ≡ Authorization.granted tt
      → ReviewPromise (review_row actor_id reason now row db)
  unfolding review_row
  row-Promise row owner actor found lo la admin = elim (Bool-cases (row.user_id == actor_id)) [
    | inl self ↦ rw self refl
    | inr other ↦ rw other (elim (Bool-cases (is_under_review row.status)) [
      | inr early ↦ rw early refl
      | inl submitted ↦ rw submitted (elim (Bool-cases (Tables.is_complete row.id db)) [
        | inr missing ↦ rw missing refl
        | inl complete ↦ rw complete (record {
          row = row;
          owner = owner;
          actor = actor;
          found = found;
          submitted = submitted;
          complete = complete;
          other_person = ground arith;
          owner_locked = lo;
          actor_locked = la;
          is_admin = admin;
          under_review = status_lem row.status submitted;
          selfie = (complete_lem row.id db complete).0;
          wechat_proof = (complete_lem row.id db complete).1;
          handwritten_code = (complete_lem row.id db complete).2;
          owner_granted = (
            granted_lem row.user_id (row.user_id == row.user_id) owner db lo,
            (contacts_lem row.user_id owner db (own_lem row.user_id owner lo)).0,
            (contacts_lem row.user_id owner db (own_lem row.user_id owner lo)).1,
          );
          actor_granted = granted_lem actor_id (actor_id == row.user_id) actor db la;
          admin_role = admin_lem actor_id db admin;
          written = written_lem reason row;
          state = refl;
        })
      ])
    ])
  ]

  locked-Promise :
      (row : SellerVerification)
      → Tables.by_reference reference db ≡ some row
      → ReviewPromise (review_locked actor_id reason now row db)
  unfolding review_locked
  locked-Promise row found = elim (Option-cases (lock_both row.user_id actor_id db)) [
    | inr (status, locked) ↦ rw (locked, review_locked) refl
    | inl free ↦
        rw (free, review_locked)
          (elim (Authorization-cases (require_db_admin actor_id db.accounts)) [
            | inr (status, e) ↦ rw e refl
            | inl (u, e) ↦ rw e (
                let (free_owner, free_actor) = both_lem row.user_id actor_id db free in
                let (owner, lo) = locked_lem row.user_id row.user_id db free_owner in
                let (actor, la) = locked_lem row.user_id actor_id db free_actor in
                row-Promise row owner actor found lo la e)
          ])
  ]

  -- A seller is verified or rejected only by a review of a submitted attempt that has the three
  -- kinds of evidence, by an active administrator who is not its owner, and of an owner who is
  -- active with verified e-mail and phone. The review records who decided, when and why, and leaves
  -- an audit. A review that is refused changes nothing.
  pub review-Promise : ReviewPromise (review actor_id reference reason now db)
  unfolding review
  review-Promise = elim (Option-cases (Tables.by_reference reference db)) [
    | inl missing ↦ rw (missing, review) refl
    | inr (row, found) ↦ rw (found, review) (locked-Promise row found)
  ]
