-- ===== src/Auth.antt =====
-- apps/server/src/modules/auth: who a request is from and what it may do to a project.
pub mod Authorize
pub mod Password
pub mod Accounts
