-- ===== src/Server.antt =====
-- examples/minimal-server/src: the reference API server over the in-memory adapters.
pub mod Wire
pub mod World
pub mod Inversion
pub mod Handlers
pub mod Paging
pub mod Routes
pub mod Http
