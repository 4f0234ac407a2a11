-- ===== src/Files.antt =====
-- apps/server/src/modules/files: the rules for paths and the file table of a project.
pub mod Rows
pub mod Paths
pub mod Service
