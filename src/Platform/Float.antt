-- ===== src/Platform/Float.antt =====
-- Python's floats: the 64 bits of a double, with its operations as a parameter.
use wes.Base.{ℕ, Bool, List}

abbrev pub Float : Type 0
Float = ℕ

-- IEEE 754 arithmetic and comparison, `round(x, 6)`, Python's truth of a float, and the order in
-- which the database adds the values of a column.
pub record FloatOps : Type 0 where
  pub add : Float → Float → Float
  pub div : Float → Float → Float
  pub gt : Float → Float → Bool
  pub ge : Float → Float → Bool
  pub round3 : Float → Float
  pub round6 : Float → Float
  pub truth : Float → Bool
  pub sum : List Float → Float

-- 0.0
abbrev pub float_zero : Float
float_zero = 0

-- 0.8
abbrev pub float_0_8 : Float
float_0_8 = 4605380978949069210
