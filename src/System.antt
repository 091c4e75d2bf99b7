-- ===== src/System.antt =====
-- The services together: what holds of the tables and the change buffer whatever the endpoints, the
-- consumers and the timers do, and in whatever order.
pub mod Soundness
pub mod Passes
pub mod Edits
pub mod Endpoints
pub mod Untouched
pub mod Steps
pub mod Invariant
pub mod Consequences
pub mod Keeping
pub mod History
pub mod Recorded
pub mod Announced
pub mod Counts
pub mod Pipeline
pub mod Unique
