-- ===== src/Shared.antt =====
-- packages/shared/src: the types that the API and the web client share, and the errors.
pub mod Rule
pub mod Events
pub mod Result
pub mod Json
