-- ===== src/Observability.antt =====
-- packages/observability/src: health, logging and tracing.
pub mod Health
pub mod Logger
pub mod Tracing
