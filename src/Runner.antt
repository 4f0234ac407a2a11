-- ===== src/Runner.antt =====
-- apps/runner: the worker that runs a job in a container and publishes what it says.
pub mod Limits
pub mod Worker
pub mod Reaper
