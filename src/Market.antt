-- ===== src/Market.antt =====
-- The tables of the marketplace and how its calls run: backend/app/models/{catalog,profile,product,
-- product_favorite,product_recent_view}.py and the exceptions of the marketplace services.
pub mod Tables
pub mod Call
pub mod Rules
pub mod Samples
