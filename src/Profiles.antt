-- ===== src/Profiles.antt =====
-- backend/app/services/profile_service.py over backend/app/repositories/profile_repository.py: the
-- marketplace profile of an account and its onboarding.
pub mod Service
pub mod Table
pub mod Changes
pub mod Completion
pub mod Onboarding
mod Tests
