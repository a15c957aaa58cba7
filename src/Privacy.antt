-- ===== src/Privacy.antt =====
-- packages/privacy: modes, request contexts, policies, enforcement, telemetry and minimisation.
pub mod Modes
pub mod Context
pub mod Policy
pub mod Telemetry
pub mod Enforcer
pub mod Minimization
