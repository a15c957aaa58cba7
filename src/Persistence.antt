-- ===== src/Persistence.antt =====
-- packages/persistence: the in-memory repository, its pages, and the unit of work.
pub mod Repository
