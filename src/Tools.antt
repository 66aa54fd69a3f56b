-- ===== src/Tools.antt =====
-- app/tools: the search tools over one bundle.
pub mod Rank
pub mod Search
