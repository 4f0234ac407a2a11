-- ===== src/Execution.antt =====
-- apps/server/src/modules/execution: starting a run and relaying its output.
pub mod Registry
pub mod Service
