-- ===== src/Floats.antt =====
-- `float64` and `math.Ceil`, which Go's runtime implements: a type of numbers and the operations
-- that the program uses, with no law assumed. A conversion to `int32` takes any value, as it does
-- in Go, where it is up to the machine when the number does not fit.
use aom.Base.{Bool, Text, Option}
use aom.Base.Int.{ℤ}

pub record Floats : Type 1 where
  pub Float64 : Type 0
  pub zero_float : Float64
  pub one_float : Float64
  pub add : Float64 → Float64 → Float64
  pub sub : Float64 → Float64 → Float64
  pub mul : Float64 → Float64 → Float64
  pub div : Float64 → Float64 → Float64
  pub less : Float64 → Float64 → Bool
  pub of_int : ℤ → Float64
  pub ceil : Float64 → Float64
  pub to_int32 : Float64 → ℤ
  -- `strconv.ParseFloat(s, 64)`
  pub parse_float : Text → Option Float64
