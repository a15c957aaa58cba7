-- ===== src/Sdk.antt =====
-- packages/sdk: cursor pagination, the error type and the client.
pub mod Pagination
pub mod Errors
pub mod Urls
pub mod Client
