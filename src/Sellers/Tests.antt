-- ===== src/Sellers/Tests.antt =====
-- Runs of a verification, and the theorems applied to it.
use unishop_china.Prelude.{ℕ, ◌+◌, ◌≡◌, refl, true, false, none, some, [], ◌∷◌, arith}
use unishop_china.Prelude.Rows.{select, first?, update, count, top?}
use unishop_china.Models.{User, UserRoleType, AccountStatus}
use unishop_china.Repositories.Users
use unishop_china.Accounts.Service as Accounts
use unishop_china.Sellers.Tables
use unishop_china.Sellers.Tables.{
  VerificationStatus, EvidenceType, SellerVerification, SellerEvidence, AuditEvent, SellerDb,
  has_kind,
}
use unishop_china.Sellers.Service
use unishop_china.Sellers.Service.{Reply, Draw, Command, Upload}
use unishop_china.Sellers.Review.{ReviewPromise, review-Promise}
use unishop_china.Sellers.Invariant.{IsValid}
use unishop_china.Sellers.History.{Step, Reach, sellers_history-IsValid}

abbrev seller : User
seller = record {
  id = 1;
  email = some 31;
  phone_number = some 51;
  password_hash = 77;
  phone_verified = true;
  email_verified = true;
  account_status = AccountStatus.active;
  created_at = 5;
}

-- An administrator without verified contacts.
abbrev admin : User
admin = record seller { id = 2; email = some 32; phone_number = none; phone_verified = false }

abbrev draft : SellerVerification
draft = record {
  id = 11;
  created_at = 10;
  user_id = 1;
  review_reference = 900;
  status = VerificationStatus.pending;
  handwritten_challenge = 6;
  challenge_expires_at = 100;
  rejection_reason = none;
  reviewed_by = none;
  submitted_at = none;
  reviewed_at = none;
}

abbrev piece : ℕ → EvidenceType → SellerEvidence
piece id kind = record {
  id = id;
  verification_id = 11;
  evidence_type = kind;
  storage_key = 40 + id;
  file_hash = 1;
  mime_type = 1;
  size = 9;
}

abbrev db : SellerDb
db = record {
  accounts = record {
    users = seller ∷ admin ∷ [];
    roles = record { user_id = 2; role = UserRoleType.admin } ∷ [];
    refresh_tokens = [];
    email_codes = [];
    reset_codes = [];
    phone_codes = [];
    calls = [];
  };
  verifications = draft ∷ [];
  evidence =
      piece 1 EvidenceType.selfie
      ∷ piece 2 EvidenceType.wechat_proof
      ∷ piece 3 EvidenceType.handwritten_code
      ∷ [];
  audits = [];
  files = 41 ∷ 42 ∷ 43 ∷ [];
}

abbrev draw : Draw
draw = record {
  id = 12;
  created_at = 20;
  review_reference = 901;
  challenge = 8;
  now = 50;
  deleted = true;
}

program : Unit {0}
unfolding Tables.is_newer Tables.latest Tables.by_reference Tables.evidence_of Tables.is_complete
    Tables.record_audit Tables.assign Tables.delete_evidence Tables.delete_file Service.new_attempt
    Service.add_attempt Service.start_attempt Service.renew Service.submit_draft Service.dispatch
    Service.start_or_submit Service.may_upload Service.put_evidence Service.store_evidence
    Service.upload_to Service.upload Service.lock_one Service.lock_both Service.reviewed
    Service.review_row Service.review_locked Service.review Accounts.lock_active_user
    Accounts.is_admin_row Accounts.require_db_admin Users.get_by_id select first? update count top?
program = tt

abbrev submitted : Reply × SellerDb
submitted = Service.start_or_submit 600 Command.submit 1 draw db

abbrev verified : Reply × SellerDb
verified = Service.review 2 900 none 60 submitted.1

-- The draft is complete: it is submitted, and the administrator verifies it.
review_verifies :
    verified.1.verifications
    ≡ record draft {
      status = VerificationStatus.verified;
      submitted_at = some 50;
      reviewed_at = some 60;
      reviewed_by = some 2;
    }
      ∷ []
unfolding program
review_verifies = refl

-- The seller cannot review, and a verified seller cannot start again.
review_self : (Service.review 1 900 none 60 submitted.1).0 ≡ Reply.refused 403
unfolding program
review_self = refl

start_again : (Service.start_or_submit 600 Command.start 1 draw verified.1).0 ≡ Reply.refused 409
unfolding program
start_again = refl

abbrev renewed : SellerDb
renewed = (Service.start_or_submit 600 Command.renew_challenge 1 draw db).1

-- A new upload replaces the file of the old evidence.
abbrev image : Upload
image = record {
  evidence_id = 4;
  file_hash = 2;
  mime_type = 1;
  size = 7;
  key = some 45;
  now = 50;
  deleted = true;
}

upload_replaces : (Service.upload 1 EvidenceType.selfie image none db).1.files ≡ 45 ∷ 42 ∷ 43 ∷ []
unfolding program
upload_replaces = refl

review-Promise_example : ReviewPromise 2 900 none 60 submitted.1 verified
review-Promise_example = review-Promise 2 900 none 60 submitted.1

db-IsValid : IsValid db.verifications
unfolding count
db-IsValid = record {
  unique_id = λ i. ground arith;
  one_active = λ u. ground arith;
  dated = ((refl, refl, refl), tt);
}

sellers_history-IsValid_example : IsValid verified.1.verifications
unfolding count
sellers_history-IsValid_example =
    sellers_history-IsValid 600 db verified.1
      (Reach.next (Reach.next Reach.here (Step.command db 1 Command.submit draw refl))
        (Step.review submitted.1 2 900 none 60))
      db-IsValid
