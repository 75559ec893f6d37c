-- ===== src/Sellers.antt =====
-- backend/app/services/seller_verification_service.py over backend/app/models/seller_verification.py:
-- the private verification of sellers, from the draft to the review.
pub mod Tables
pub mod Service
pub mod Lifecycle
pub mod Commands
pub mod Invariant
pub mod Review
pub mod History
mod Tests
