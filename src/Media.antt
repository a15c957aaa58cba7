-- ===== src/Media.antt =====
-- packages/media/src: assets, upload sessions and the local service.
pub mod Assets
pub mod Local
