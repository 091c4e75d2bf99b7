-- ===== src/Tests.antt =====
-- The theorems at concrete inputs: a small database of lists, with two customers and four segments.
mod Data
mod SegmentTests
mod MessagingTests
mod ApiTests
mod WebTests
mod SystemTests
mod PipelineTests
mod ClientTests
mod SeedTests
