-- ===== src/Tests.antt =====
-- A world to run the code in, and the theorems at concrete inputs.
pub mod World
pub mod Coding
pub mod Collation
pub mod Table
pub mod CacheExamples
pub mod UserExamples
pub mod MiddlewareExamples
pub mod HistoryExamples
pub mod RegisterExamples
pub mod RetryExamples
pub mod SumExamples
pub mod SortExamples
pub mod RaceExamples
pub mod LoggerExamples
pub mod StartupExamples
pub mod CountExamples
pub mod LockExamples
