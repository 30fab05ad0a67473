-- ===== src/External.antt =====
-- What the code takes from outside the repository, as records of operations.
pub mod Float
pub mod Redis
pub mod Text
pub mod Gorm
