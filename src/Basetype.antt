-- ===== src/Basetype.antt =====
-- common/basetype: metrics and models, and their keys; common/consts.
pub mod Laws
use aom.Base.{ℕ, Bool, Text, codes, ◌++◌, ◌∷◌, ◌≡◌, ℕ_discrete}
use aom.Base.Int.{ℤ}
use aom.Base.Dict.{Dict}
use aom.Utils.Keys.{dollar}

pub record ScaleDownConf : Type 0 where
  pub threshold : Text
  pub duration : ℤ

pub record Metric : Type 0 where
  pub scale_down_conf : ScaleDownConf
  pub target : Text
  pub weight : ℤ
  pub name : Text
  pub unit : Text
  pub query : Text

pub record Model : Type 0 where
  pub type : Text
  pub need_train : Bool
  pub update_interval : ℤ
  pub attr : Dict Text

abbrev pub gru : Text
gru = codes "GRU"

abbrev pub lstm : Text
lstm = codes "LSTM"

abbrev pub holt_winter : Text
holt_winter = codes "holt_winter"

unfoldable pub no_model_key : Metric → Text
no_model_key m = m.name ++ (dollar ∷ (m.unit ++ (dollar ∷ m.query)))

unfoldable pub with_model_key : Metric → Text → Text
unfolding no_model_key
with_model_key m model_type = no_model_key m ++ (dollar ∷ model_type)

-- `reflect.DeepEqual`
unfoldable pub Metric-discrete : Discrete Metric
Metric-discrete = hlevel ℕ_discrete

unfoldable pub Model-discrete : Discrete Model
Model-discrete = hlevel ℕ_discrete
