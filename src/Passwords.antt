-- ===== src/Passwords.antt =====
-- `PasswordResetRequestService` and `PasswordResetCompletionService` of
-- backend/app/services/password_reset_service.py, and `PasswordChangeService` of
-- backend/app/services/password_change_service.py.
pub mod Service
pub mod Change
pub mod Request
pub mod Unusable
pub mod Completion
pub mod Spent
pub mod Roundtrip
mod Tests
