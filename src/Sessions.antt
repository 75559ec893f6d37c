-- ===== src/Sessions.antt =====
-- backend/app/services/refresh_session_service.py over backend/app/core/session_security.py: the
-- creation, rotation and revocation of refresh sessions. The clock, the token generators and the
-- new family are arguments of a call; the digests and the access tokens are parameters.
pub mod Csrf
pub mod Service
pub mod Creation
pub mod Families
pub mod Login
pub mod Logout
pub mod Reach
pub mod Progress
pub mod Rotation
mod Tests
pub mod Spent
pub mod Refresh
pub mod Invariant
