-- ===== src/Catalog.antt =====
-- backend/app/services/catalog_service.py over backend/app/repositories/catalog_repository.py: the
-- cities and the two-level tree of categories.
pub mod Repository
pub mod Cities
pub mod Categories
pub mod Tree
pub mod Parents
pub mod Keeps
pub mod Loaded
pub mod Updates
pub mod Activation
pub mod CityTable
pub mod Frames
pub mod Reach
pub mod Visible
mod Tests
