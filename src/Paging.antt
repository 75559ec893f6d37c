-- ===== src/Paging.antt =====
-- The keyset pages that backend/app/services/{favorites_service,recently_viewed_service,
-- product_browse_service}.py and their repositories share: a page starts after a position, and its last
-- row is the position of the next.
pub mod Keyset
pub mod Order
pub mod Walk
mod Tests
