-- ===== src/Accounts.antt =====
-- backend/app/services/auth_service.py: login, registration, and the current user; and
-- backend/app/core/authorization.py.
pub mod Service
pub mod Login
pub mod Registration
pub mod Unique
mod Tests
