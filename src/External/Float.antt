-- ===== src/External/Float.antt =====
-- Go's float64 and math/rand as the code uses them. The arithmetic is a parameter: nothing below
-- computes with a float except through these operations.
use kratos_layout_monolith.Prelude.{Bool}
use kratos_layout_monolith.Prelude.Int.{ℤ}

pub record Floats : Type 1 where
  pub F : Type 0
  -- float64(n)
  pub of_int : ℤ → F
  -- int64(x), which truncates
  pub trunc : F → ℤ
  -- math.Round
  pub round : F → F
  pub times : F → F → F
  pub over : F → F → F
  pub minus : F → F → F
  pub plus : F → F → F
  -- x < y
  pub lt : F → F → Bool
  -- the constant 0.05
  pub five_percent : F
  -- d.Seconds()
  pub seconds : ℤ → F
