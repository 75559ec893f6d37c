-- ===== src/EmailVerification.antt =====
-- backend/app/services/email_verification_service.py: e-mail challenges, their delivery and their
-- redemption. The delivery is an external call between two transactions: what other requests
-- commit meanwhile is an argument.
pub mod Service
pub mod Issue
pub mod Invariant
pub mod Keeps
pub mod Redeem
pub mod Once
pub mod Roundtrip
pub mod History
mod Tests
