-- ===== src/Personal.antt =====
-- backend/app/services/favorites_service.py and recently_viewed_service.py over their repositories: the
-- two private lists of listings that an account keeps.
pub mod Favorites
pub mod History
pub mod Saved
pub mod Toggle
pub mod Quota
pub mod Retention
pub mod Viewed
mod Tests
