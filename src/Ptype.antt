-- ===== src/Ptype.antt =====
-- predictor/type: what a prediction returns; and `encoding/json` as the constructors of the
-- predictors use it.
use aom.Base.{ℕ, Text, List}
use aom.Base.Dict.{Dict}
use aom.Floats.{Floats}

-- What `encoding/json` puts into the string field with this tag, of a struct that a map of strings
-- is marshalled to and back.
abbrev pub Json : Type 0
Json = Dict Text → Text → Text

-- `ptype.PredictResult`
pub record PredictResult (F : Floats) : Type 0 where
  pub start_metric : F.Float64
  pub loss : F.Float64
  pub predict_metric : List F.Float64

-- `predictor.Param`: the key, the address of the collector worker, and the model's attributes. The
-- scale target, which no predictor reads, is left out.
pub record Param : Type 0 where
  pub with_model_key : Text
  pub metric_collector : ℕ
  pub model : Dict Text
