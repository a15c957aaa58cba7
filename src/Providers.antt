-- ===== src/Providers.antt =====
-- packages/providers/src: the provider ports that have an implementation. Its health checks are all
-- healthy reports, with the time and, for the adapters that hold something, how much they hold.
pub mod RateLimit
pub mod Auth
pub mod Authorization
pub mod Search
pub mod Adapters
