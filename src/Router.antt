-- ===== src/Router.antt =====
-- packages/ai-router: providers, capabilities, the registry and the routing of an operation.
pub mod Providers
pub mod Capabilities
pub mod Registry
pub mod Attempt
pub mod Routes
