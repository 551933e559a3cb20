-- ===== src/Controller/Metrics.antt =====
-- `handleMetrics`. Go 1.19 has one loop variable for a whole `for` statement: `&metric` is the same
-- pointer in every round, and each round writes the metric into its cell.
pub mod Keys
pub mod Sharing
use aom.Base.{
  ℕ, ◌+◌, Bool, Text, List, [], ◌∷◌, ◌++◌, map, Option, none, some, Result, ok, err, panic,
  value_not_found, if◌then◌else◌, ite, length, get_elem?, set,
}
use aom.Base.Int.{ℤ, pos}
use aom.Base.Dict.{Dict, keys, mem, lookup, insert, erase, has}
use aom.Base.Action.{Action, pure, raise, and_then, ◌>>=◌, ◌>>◌}
use aom.Basetype.{Metric, ScaleDownConf, Metric-discrete, no_model_key}
use aom.Controller.{AomSpec, Ranges, metric_values}

-- The cells of metrics, and the map of pointers to them.
pub record MetricState : Type 0 where
  pub cells : List Metric
  pub metric_map : Dict ℕ

-- The zero value of `Metric`.
abbrev pub zero_metric : Metric
zero_metric = record {
  scale_down_conf = record { threshold = []; duration = pos 0 };
  target = [];
  weight = pos 0;
  name = [];
  unit = [];
  query = [];
}

-- Makes the cell of a loop variable.
abbrev pub declare : List Metric → List Metric
declare cells = cells ++ zero_metric ∷ []

-- The loop under "Add", whose variable has the cell `ptr`.
unfoldable pub add_loop : ℕ → List Metric → MetricState → MetricState
add_loop ptr [] s = s
add_loop ptr (metric ∷ ms) s =
    let cells = set s.cells ptr metric in
    let key = no_model_key metric in
    add_loop ptr ms (record {
      cells = cells;
      metric_map = if has key s.metric_map then s.metric_map else insert key ptr s.metric_map;
    })

-- The loop over the keys of the map under "Delete".
unfoldable pub delete_loop {ℓ} : {V : Type ℓ} → List Text → List Text → Dict V → Dict V
delete_loop temp_map [] d = d
delete_loop temp_map (nmk ∷ ks) d =
    delete_loop temp_map ks (if mem nmk temp_map then d else erase nmk d)

-- The loop under "change". It returns at the first metric that is equal to the stored one.
unfoldable pub change_loop : ℕ → List Metric → Action MetricState (Unit {0})
change_loop ptr [] s = (ok tt, s)
change_loop ptr (metric ∷ ms) s =
    let cells = set s.cells ptr metric in
    let key = no_model_key metric in
    elim (lookup key s.metric_map) [
      | none ↦ (err value_not_found, record s { cells = cells })
      | some old ↦ elim (get_elem? cells old) [
        | none ↦ (panic, record s { cells = cells })
        | some old_metric ↦ elim (Metric-discrete old_metric metric) [
          | yes _ ↦ (ok tt, record s { cells = cells })
          | no _ ↦
              change_loop ptr ms
                (record { cells = cells; metric_map = insert key ptr s.metric_map })
        ]
      ]
    ]

unfoldable pub handle_metrics : Ranges → AomSpec → Action MetricState (Unit {0})
unfolding add_loop delete_loop change_loop
handle_metrics o spec s =
    let added =
      add_loop (length s.cells) (metric_values (o.metrics 0 spec.metrics))
        (record s { cells = declare s.cells }) in
    let temp_map = map no_model_key (metric_values (o.metrics 1 spec.metrics)) in
    let kept = delete_loop temp_map (o.keys 0 (keys added.metric_map)) added.metric_map in
    change_loop (length added.cells) (metric_values (o.metrics 2 spec.metrics))
      (record { cells = declare added.cells; metric_map = kept })
