-- ===== src/Sellers/History.antt =====
-- Histories of the attempts over any calls of `SellerVerificationService`.
use unishop_china.Prelude.{
  ℕ, ◌≡◌, refl, sym, subst, Option, none, some, Option-cases, inl, inr, arith,
}
use unishop_china.Prelude.Rows.{count}
use unishop_china.Sellers.Tables
use unishop_china.Sellers.Tables.{
  EvidenceType, SellerVerification, SellerEvidence, SellerDb, has_id,
}
use unishop_china.Sellers.Service
use unishop_china.Sellers.Service.{Draw, Command, Upload}
use unishop_china.Sellers.Invariant.{IsValid, start_or_submit-IsValid, review-IsValid}

-- The calls of one configuration; the key that a command draws for a new attempt is new.
pub data Step (lifetime : ℕ) : SellerDb → SellerDb → Type 0 where
  command :
      (db : SellerDb) (actor_id : ℕ) (c : Command) (draw : Draw)
      → count (has_id draw.id) db.verifications ≡ 0
      → Step lifetime db (Service.start_or_submit lifetime c actor_id draw db).1
  upload :
      (db : SellerDb) (actor_id : ℕ) (kind : EvidenceType) (image : Upload) (challenge : Option ℕ)
      → Step lifetime db (Service.upload actor_id kind image challenge db).1
  review :
      (db : SellerDb) (actor_id reference : ℕ) (reason : Option ℕ) (now : ℕ)
      → Step lifetime db (Service.review actor_id reference reason now db).1

pub data Reach (lifetime : ℕ) (db : SellerDb) : SellerDb → Type 0 where
  here : Reach lifetime db db
  next :
      {mid last : SellerDb}
      → Reach lifetime db mid
      → Step lifetime mid last
      → Reach lifetime db last

stored-verifications :
    (actor_id : ℕ) (kind : EvidenceType) (image : Upload) (key : Option ℕ)
    (row : SellerVerification) (db : SellerDb)
    → (Service.store_evidence actor_id kind image key row db).1.verifications ≡ db.verifications
unfolding Service.store_evidence Service.put_evidence Tables.record_audit Tables.delete_file
stored-verifications actor_id kind image none row db = refl
stored-verifications actor_id kind image (some key) row db =
    elim (Option-cases (Tables.evidence_of row.id kind db)) [
      | inl missing ↦ ground (arith, missing)
      | inr (e, found) ↦ ground (arith, found)
    ]

placed-verifications :
    (actor_id : ℕ) (kind : EvidenceType) (image : Upload) (challenge : Option ℕ)
    (latest : Option SellerVerification) (db : SellerDb)
    → (Service.upload_to actor_id kind image challenge latest db).1.verifications ≡ db.verifications
unfolding Service.upload_to
placed-verifications actor_id kind image challenge none db = refl
placed-verifications actor_id kind image challenge (some row) db =
    ground (arith, stored-verifications actor_id kind image image.key row db)

-- An upload changes no attempt.
upload-verifications :
    (actor_id : ℕ) (kind : EvidenceType) (image : Upload) (challenge : Option ℕ) (db : SellerDb)
    → (Service.upload actor_id kind image challenge db).1.verifications ≡ db.verifications
unfolding Service.upload
upload-verifications actor_id kind image challenge db =
    ground
      (arith, placed-verifications actor_id kind image challenge (Tables.latest actor_id db) db)

Step-IsValid :
    (lifetime : ℕ) {db db' : SellerDb}
    → Step lifetime db db'
    → IsValid db.verifications
    → IsValid db'.verifications
Step-IsValid lifetime (command db actor_id c draw fresh) v =
    start_or_submit-IsValid lifetime actor_id c draw db fresh v
Step-IsValid lifetime (upload db actor_id kind image challenge) v =
    subst IsValid (sym (upload-verifications actor_id kind image challenge db)) v
Step-IsValid lifetime (review db actor_id reference reason now) v =
    review-IsValid actor_id reference reason now db v

-- Whatever commands, uploads and reviews are made, carried out or refused, the keys stay unique, a
-- user has at most one attempt that is not rejected, and the dates and reasons of every attempt are
-- as the constraints of the table demand, if that holds at the start and drawn keys are new.
pub sellers_history-IsValid :
    (lifetime : ℕ) (db db' : SellerDb)
    → Reach lifetime db db'
    → IsValid db.verifications
    → IsValid db'.verifications
sellers_history-IsValid lifetime db db' here v = v
sellers_history-IsValid lifetime db db' (next {mid} r s) v =
    Step-IsValid lifetime s (sellers_history-IsValid lifetime db mid r v)
