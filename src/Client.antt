-- ===== src/Client.antt =====
-- The browser: apps/web/src/features/collab, apps/web/src/features/editor and the runs of apps/web/src/features/terminal.
pub mod Reconnect
pub mod Provider
pub mod Tabs
pub mod Runs
