-- ===== src/Engine/Cache.antt =====
-- serpentine/src/engine/cache: where results are kept between runs.
pub mod Local
