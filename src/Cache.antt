-- ===== src/Cache.antt =====
-- chitu/cache_manager.py: the key-value cache of a pipeline stage.
pub mod IndexMap
pub mod SeqLens
pub mod Requests
pub mod Slots
pub mod Paged
pub mod Dense
