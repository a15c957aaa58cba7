-- ===== src/Server/Handlers.antt =====
-- examples/minimal-server/src/server.ts: the handlers of the routes. A handler is a task on the
-- world; what it throws ends it, and leaves what it has changed.
pub mod Profiles
pub mod Posts
pub mod Communities
pub mod Events
pub mod Notifications
