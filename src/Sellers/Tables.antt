-- ===== src/Sellers/Tables.antt =====
-- The tables of backend/app/models/seller_verification.py, the private storage, and the statements
-- of backend/app/repositories/seller_verification_repository.py that the service uses.
use unishop_china.Prelude.{
  ℕ, Bool, true, false, not, ◌&&◌, ◌||◌, Option, none, some, List, ◌∷◌, is_some, ltb, ◌==◌,
}
use unishop_china.Prelude.Rows.{select, first?, update, top?}
use unishop_china.Models.{Db}

pub data VerificationStatus : Type 0 where
  pending under_review verified rejected : VerificationStatus

pub data EvidenceType : Type 0 where
  selfie wechat_proof handwritten_code : EvidenceType

pub record SellerVerification : Type 0 where
  pub id : ℕ
  pub created_at : ℕ
  pub user_id : ℕ
  pub review_reference : ℕ
  pub status : VerificationStatus
  pub handwritten_challenge : ℕ
  pub challenge_expires_at : ℕ
  pub rejection_reason : Option ℕ
  pub reviewed_by : Option ℕ
  pub submitted_at : Option ℕ
  pub reviewed_at : Option ℕ

pub record SellerEvidence : Type 0 where
  pub id : ℕ
  pub verification_id : ℕ
  pub evidence_type : EvidenceType
  pub storage_key : ℕ
  pub file_hash : ℕ
  pub mime_type : ℕ
  pub size : ℕ

-- The `event` column of the audit.
pub data AuditEvent : Type 0 where
  start challenge_renewed submission upload rejection approval : AuditEvent

pub record Audit : Type 0 where
  pub verification_id : ℕ
  pub actor_id : ℕ
  pub event : AuditEvent

-- The account tables, the seller tables, and the keys of the files in the private storage.
pub record SellerDb : Type 0 where
  pub accounts : Db
  pub verifications : List SellerVerification
  pub evidence : List SellerEvidence
  pub audits : List Audit
  pub files : List ℕ

abbrev pub is_pending : VerificationStatus → Bool
is_pending VerificationStatus.pending = true
is_pending _ = false

abbrev pub is_under_review : VerificationStatus → Bool
is_under_review VerificationStatus.under_review = true
is_under_review _ = false

abbrev pub is_rejected : VerificationStatus → Bool
is_rejected VerificationStatus.rejected = true
is_rejected _ = false

abbrev pub is_kind : EvidenceType → EvidenceType → Bool
is_kind EvidenceType.selfie EvidenceType.selfie = true
is_kind EvidenceType.wechat_proof EvidenceType.wechat_proof = true
is_kind EvidenceType.handwritten_code EvidenceType.handwritten_code = true
is_kind _ _ = false

-- `order_by(created_at.desc(), id.desc())`
unfoldable pub is_newer : SellerVerification → SellerVerification → Bool
is_newer v w = ltb w.created_at v.created_at || (v.created_at == w.created_at && ltb w.id v.id)

unfoldable pub latest : ℕ → SellerDb → Option SellerVerification
latest user_id db = top? is_newer (select (λ v. v.user_id == user_id) db.verifications)

abbrev pub has_reference : ℕ → SellerVerification → Bool
has_reference reference v = v.review_reference == reference

unfoldable pub by_reference : ℕ → SellerDb → Option SellerVerification
by_reference reference db = first? (has_reference reference) db.verifications

abbrev pub has_kind : ℕ → EvidenceType → SellerEvidence → Bool
has_kind verification_id kind e =
    e.verification_id == verification_id && is_kind e.evidence_type kind

-- The evidence of a kind that an attempt has.
unfoldable pub evidence_of : ℕ → EvidenceType → SellerDb → Option SellerEvidence
evidence_of verification_id kind db = first? (has_kind verification_id kind) db.evidence

-- `{e.evidence_type for e in evidence} == set(EvidenceType)`
unfoldable pub is_complete : ℕ → SellerDb → Bool
unfolding evidence_of
is_complete verification_id db =
    is_some (evidence_of verification_id EvidenceType.selfie db)
    && is_some (evidence_of verification_id EvidenceType.wechat_proof db)
    && is_some (evidence_of verification_id EvidenceType.handwritten_code db)

unfoldable pub record_audit : ℕ → ℕ → AuditEvent → SellerDb → SellerDb
record_audit verification_id actor_id event db = record db {
  audits =
      record { verification_id = verification_id; actor_id = actor_id; event = event } ∷ db.audits;
}

abbrev pub has_id : ℕ → SellerVerification → Bool
has_id id v = v.id == id

-- Assignments to the loaded row.
unfoldable pub assign : ℕ → (SellerVerification → SellerVerification) → SellerDb → SellerDb
assign id f db = record db { verifications = update (has_id id) f db.verifications }

-- `db.delete(previous)`, where there is such evidence.
unfoldable pub delete_evidence : Option SellerEvidence → SellerDb → SellerDb
delete_evidence none db = db
delete_evidence (some previous) db = record db {
  evidence = select (λ e. not (e.id == previous.id)) db.evidence;
}

-- `storage.delete(old_key)`, where there is such a key; a failure is only logged.
unfoldable pub delete_file : Bool → Option SellerEvidence → SellerDb → SellerDb
delete_file true (some previous) db = record db {
  files = select (λ key. not (key == previous.storage_key)) db.files;
}
delete_file true none db = db
delete_file false previous db = db
