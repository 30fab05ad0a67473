-- ===== src/Cache.antt =====
-- internal/pkg/cache.
pub mod Metrics
pub mod State
pub mod Commands
pub mod Take
pub mod CachedDb
pub mod Coherence
pub mod Delay
pub mod Paging
