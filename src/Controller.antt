-- ===== src/Controller.antt =====
-- controllers/aom_controller.go and api/v1/aom_types.go: the instance that is reconciled, and the
-- state that its handlers read and write.
pub mod Metrics
pub mod Models
pub mod Collectors
pub mod Predictors
pub mod Handle
use aom.Base.{ℕ, Bool, Text, List, Option, none, map}
use aom.Base.Int.{ℤ}
use aom.Base.Dict.{Dict}
use aom.Base.Shuffle.{Shuffle}
use aom.Basetype.{Metric, Model}
use aom.K8s.{CrossVersionObjectReference}

-- `AOMSpec`, with the fields of `Collector`.
pub record AomSpec : Type 0 where
  pub scale_target_ref : CrossVersionObjectReference
  pub min_replicas : ℤ
  pub max_replicas : ℤ
  pub address : Text
  pub scrape_interval : ℤ
  pub metrics : Dict Metric
  pub models : Dict (List Model)
  pub interval : ℤ

pub record StatusCollector : Type 0 where
  pub name : Text
  pub unit : Text
  pub expression : Text

-- `AOMStatus`
pub record AomStatus : Type 0 where
  pub status_collectors : List StatusCollector
  pub generation : ℤ

-- `AOM`: of the metadata, what the handlers read.
pub record Aom : Type 0 where
  pub namespace : Text
  pub name : Text
  pub generation : ℤ
  pub spec : AomSpec
  pub status : AomStatus

-- The orders in which each `range` over a map visits it: Go leaves them open. The number is the
-- place of the `range` statement in its handler.
pub record Ranges : Type 0 where
  pub metrics : ℕ → Dict Metric → Dict Metric
  pub models : ℕ → Dict (List Model) → Dict (List Model)
  pub keys : ℕ → List Text → List Text
  pub changes : Dict Model → Dict Model

-- A `range` visits each entry once.
pub record IsRanges (o : Ranges) : Type 0 where
  pub metrics_all : (i : ℕ) (d : Dict Metric) → Shuffle (o.metrics i d) d
  pub models_all : (i : ℕ) (d : Dict (List Model)) → Shuffle (o.models i d) d
  pub keys_all : (i : ℕ) (ks : List Text) → Shuffle (o.keys i ks) ks
  pub changes_all : (d : Dict Model) → Shuffle (o.changes d) d

-- The metrics of a spec, in the order of a `range`.
abbrev pub metric_values : Dict Metric → List Metric
metric_values = map (λ e. e.1)
