-- ===== src/Core.antt =====
-- packages/core: errors, results, identifiers, health states and extension metadata.
pub mod Value
pub mod Errors
pub mod Result
pub mod Ids
pub mod Lifecycle
