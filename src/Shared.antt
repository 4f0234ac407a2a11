-- ===== src/Shared.antt =====
-- packages/shared: the contracts that the server, the runner and the client compile against.
pub mod Protocol
pub mod Languages
