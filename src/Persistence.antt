-- ===== src/Persistence.antt =====
-- apps/server/src/modules/persistence: the update log, its snapshots, compaction and the write
-- buffer. What Yjs does is the parameter `Yjs`; the tables are the parameters of `Database`.
pub mod Yjs
pub mod DocStore
pub mod Compactor
pub mod Buffer
