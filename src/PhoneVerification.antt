-- ===== src/PhoneVerification.antt =====
-- backend/app/services/phone_verification_service.py: SMS codes, their delivery and their check.
pub mod Service
pub mod Verify
pub mod Exhaustion
pub mod Resend
pub mod Delivered
mod Tests
