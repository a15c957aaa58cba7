-- ===== src/Tests.antt =====
-- The theorems at concrete inputs.
pub mod Core
pub mod Events
pub mod Media
pub mod Operations
pub mod Persistence
pub mod Privacy
pub mod Router
pub mod Realtime
pub mod Services
pub mod Server
