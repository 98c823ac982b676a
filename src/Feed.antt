-- ===== src/Feed.antt =====
-- crates/api/src/feed: custom feeds, their sources, candidates and pages.
pub mod Sources
pub mod Collect
pub mod Page
pub mod Ranking
pub mod Definition
mod Examples
