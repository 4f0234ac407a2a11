-- ===== src/Search.antt =====
-- Project search in the browser: apps/web/src/features/search/match.ts and useProjectSearch.ts.
pub mod Names
pub mod Contents
pub mod Tree
pub mod Ranking
pub mod Scan
