-- ===== src/Products.antt =====
-- backend/app/services/product_service.py over backend/app/repositories/product_repository.py and
-- product_visibility.py: the life of a listing, and who sees it.
pub mod Text
pub mod Service
pub mod Public
pub mod Transitions
pub mod Table
pub mod History
pub mod Kept
pub mod Facts
pub mod Promise
pub mod Lifecycle
pub mod Visible
pub mod Published
pub mod Eligible
mod Tests
