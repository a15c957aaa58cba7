-- ===== src/Events.antt =====
-- packages/events: the event envelope and the in-memory bus.
pub mod Envelope
pub mod Bus
