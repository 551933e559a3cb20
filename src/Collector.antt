-- ===== src/Collector.antt =====
-- collector/collector.go and collector/prometheus_collector: the collector, which knows a query for
-- each metric, and its workers, which buffer samples until they are sent. What a query answers is
-- an argument: the samples, an error, or a panic where the answer is no vector.
pub mod Buffer
use aom.Base.{
  Text, List, [], ◌∷◌, ◌++◌, Option, none, some, Error, Result, ok, err, panic, undefined_metric,
  codes, ite, ℕ, length, map,
}
use aom.Base.Int.{ℤ, pos}
use aom.Base.Action.{Action}
use aom.Basetype.{Metric, ScaleDownConf, Metric-discrete}
use aom.Floats.{Floats}
use aom.Utils.Keys.{dollar}

-- A map keyed by the whole metric.
pub record Promc : Type 0 where
  pub metric_ql : List (Metric × Text)
  pub server_address : Text
  -- The address of the client, once there is one.
  pub client : Option Text

abbrev cpu_avg : Metric
cpu_avg = record {
  scale_down_conf = record { threshold = []; duration = pos 0 };
  target = [];
  weight = pos 0;
  name = codes "avg_node_cpu_usage";
  unit = codes "%";
  query = [];
}

abbrev cpu_query : Text
cpu_query = codes "100 - (avg(irate(node_cpu_seconds_total{mode=\"idle\"}[30m])) * 100)"

unfoldable pub new : Promc
new = record { metric_ql = (cpu_avg, cpu_query) ∷ []; server_address = []; client = none }

-- `p.MetricQL[metric]`
unfoldable pub find_query : Metric → List (Metric × Text) → Option Text
find_query m [] = none
find_query m ((n, q) ∷ ql) = ite (Metric-discrete m n) (some q) (find_query m ql)

-- `p.MetricQL[metric] = query`
unfoldable pub put_query : Metric → Text → List (Metric × Text) → List (Metric × Text)
put_query m q [] = (m, q) ∷ []
put_query m q ((n, r) ∷ ql) = ite (Metric-discrete m n) ((n, q) ∷ ql) ((n, r) ∷ put_query m q ql)

-- The argument says whether `api.NewClient` succeeds. The address is kept even if it fails.
unfoldable pub set_server_address : Result (Unit {0}) → Text → Action Promc (Unit {0})
set_server_address (ok _) url p = (ok tt, record p { server_address = url; client = some url })
set_server_address (err e) url p = (err e, record p { server_address = url })
set_server_address panic url p = (panic, record p { server_address = url })

unfoldable pub list_metric_types : Promc → List Metric
list_metric_types p = map (λ e. e.0) p.metric_ql

unfoldable pub add_custom_metrics : Metric → Promc → Promc
unfolding put_query
add_custom_metrics m p = record p { metric_ql = put_query m m.query p.metric_ql }

module _ (F : Floats) where
  open F use {Float64}

  -- `collector.Metric`, with its time stamp as a number.
  pub record Sample : Type 0 where
    pub value : Float64
    pub time_stamp : ℤ

  pub record Worker : Type 0 where
    pub name : Text
    pub unit : Text
    pub promql : Text
    pub samples : List Sample
    pub client : Option Text

  unfoldable pub create_worker : Metric → Promc → Result Worker
  unfolding find_query
  create_worker m p = elim (find_query m p.metric_ql) [
    | none ↦ err undefined_metric
    | some promql ↦
        ok (record {
          name = m.name;
          unit = m.unit;
          promql = promql;
          samples = [];
          client = p.client;
        })
  ]

  unfoldable pub collect : Result (List Sample) → Action Worker (Unit {0})
  collect (ok vector) w = (ok tt, record w { samples = w.samples ++ vector })
  collect (err e) w = (err e, w)
  collect panic w = (panic, w)

  -- It hands the buffer over and leaves an empty one.
  unfoldable pub send : Worker → List Sample × Worker
  send w = (w.samples, record w { samples = [] })

  unfoldable pub data_cap : Worker → ℕ
  data_cap w = length w.samples

  unfoldable pub no_model_key : Worker → Text
  no_model_key w = w.name ++ (dollar ∷ (w.unit ++ (dollar ∷ w.promql)))
