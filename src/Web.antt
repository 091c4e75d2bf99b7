-- ===== src/Web.antt =====
-- The state of the web client's components in apps/web/src/app. A request is what it starts with and
-- what its answer does.
pub mod SegmentsList
pub mod SegmentDetail
pub mod SimulatorPanel
pub mod CampaignFeed
