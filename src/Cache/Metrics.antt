-- ===== src/Cache/Metrics.antt =====
-- The collectors of internal/pkg/cache.
pub mod Local
pub mod PerKey
pub mod Collector
pub mod TopKeys
pub mod Totals
pub mod Unordered
