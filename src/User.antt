-- ===== src/User.antt =====
-- internal/model/user and internal/pkg/model.
pub mod Model
pub mod Keys
pub mod Table
pub mod Repo
pub mod Usecase
pub mod Service
pub mod Validation
pub mod Race
