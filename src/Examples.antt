-- ===== src/Examples.antt =====
-- Concrete inputs: what the theorems say of them, and that their hypotheses hold there.
mod Collab
mod Handshake
mod Join
mod Shared
mod Files
mod Auth
mod Accounts
mod Projects
mod Persistence
mod Execution
mod Service
mod Runner
mod Reaper
mod Search
mod Scan
mod Rooms
mod Bus
mod Client
mod Runs
