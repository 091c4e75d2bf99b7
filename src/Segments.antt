-- ===== src/Segments.antt =====
-- apps/api/src/segments: the rule engine, its persistence and its HTTP endpoints.
pub mod Metrics
pub mod Evaluator
pub mod Dependency
pub mod Evaluation
pub mod Order
pub mod Rebuild
