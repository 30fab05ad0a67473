-- ===== src/External/Gorm.antt =====
-- gorm.DB over the tables of the program: the statements that the code builds and what they return.
use kratos_layout_monolith.Prelude.{ℕ, String, Option, List}
use kratos_layout_monolith.Prelude.Int.{ℤ}
use kratos_layout_monolith.Errors.{Done, Result}

-- One condition of a Where, `column = ?` and the like.
pub data Cond : Type 0 where
  by_id version_is del_state_is status_is id_below id_above : ℤ → Cond
  column_is : String → String → Cond

-- A value of the map that Updates takes; a time is kept apart from texts and numbers.
pub data Value (T : Type 0) : Type 0 where
  text : String → Value T
  int : ℤ → Value T
  time : T → Value T

-- A statement as it is built up.
pub record Statement : Type 0 where
  pub wheres : List Cond
  -- what Order was called with, one after the other
  pub order : List String
  pub offset : Option ℤ
  pub limit : Option ℤ

-- A table whose rows are of type R, with times of type T. `D` is the database.
pub record Gorm (R T : Type 0) : Type 1 where
  pub D : Type 0
  -- Where(…).First(dest): the error, the variable and the database after it
  pub first : List Cond → R → D → Done × R × D
  -- Create(row) fills the row's id
  pub create : R → D → Done × R × D
  -- Model(&R{}).Where(…).Updates(map): an error or the number of rows affected
  pub updates : List Cond → List (String × Value T) → D → Result ℕ × D
  -- Model(&R{}).Count(&n)
  pub count : Statement → D → Result ℤ × D
  -- Find(&rows)
  pub find : Statement → D → Result (List R) × D
  -- time.Now()
  pub now : D → T × D
