-- ===== src/Redis.antt =====
-- The document bus between server instances: apps/server/src/modules/redis.
pub mod Frames
pub mod Bus
