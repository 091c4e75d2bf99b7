-- ===== src/Api.antt =====
-- The HTTP controllers of apps/api/src.
pub mod Rules
pub mod Segments
pub mod Listing
