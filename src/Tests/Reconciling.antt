-- ===== src/Tests/Reconciling.antt =====
-- Reconciling an instance.
use aom.Base.{
  panic, arith, map, same, inr, true, false, codes, Text, [], ◌∷◌, ◌≡◌, ◌⊎◌, refl, inl, Option,
  Text-discrete, Result, ok, none, some, length,
}
use aom.Base.Int.{pos}
use aom.Base.Dict.{mem, has, lookup, insert, keys, erase}
use aom.Base.Shuffle.{Distinct, Shuffle-refl}
use aom.Basetype.{
  Metric, Model, no_model_key, with_model_key, Metric-discrete, Model-discrete, holt_winter,
}
use aom.K8s.{new_client}
use aom.Controller.{Aom, AomSpec, Ranges, IsRanges, metric_values}
use aom.Controller.Metrics.{MetricState, zero_metric, handle_metrics}
use aom.Controller.Metrics.Keys.{spec_keys, IsValid, handle_metrics-keys}
use aom.Controller.Collectors.{stopped, marked, Tick, worker_loop}
use aom.Controller.Collectors.Stopping.{worker_loop-stops}
use aom.Controller.Handle.{Outside, World, handle}
use aom.Controller.Handle.Settled.{handle_twice}
use aom.Controller.Models.{handle_models}
use aom.Controller.Models.Keys.{Handled, spec_wmks, handle_models-Handled}
use aom.Controller.Metrics.Sharing.{Reads, last_metric, handle_metrics-Reads}
use aom.Controller.Collectors.{CollectorState, handle_collector}
use aom.Controller.Collectors.Stale.{handle_collector_again}
use aom.Controller.Predictors.{handle_predictor}
use aom.Collector.{set_server_address}
use aom.Tests.Keys.{requests}
use aom.Tests.Replicas.{whole, one_target, app}

abbrev pub or_empty : Option Text → Text
or_empty none = []
or_empty (some t) = t

abbrev closing : Tick
closing = record { has_key = true; ctx_done = false; stop_closed = true }

worker_loop-stops_example :
    (worker_loop (closing ∷ closing ∷ []) false ≡ stopped ∷ [])
    ⊎ (worker_loop (closing ∷ closing ∷ []) false ≡ marked ∷ stopped ∷ [])
worker_loop-stops_example = worker_loop-stops closing closing [] false (inl refl)

-- Every range in the order of the list.
abbrev pub in_order : Ranges
in_order = record { metrics = λ _ d. d; models = λ _ d. d; keys = λ _ ks. ks; changes = λ d. d }

pub in_order-IsRanges : IsRanges in_order
in_order-IsRanges = record {
  metrics_all = λ _ d. Shuffle-refl d;
  models_all = λ _ d. Shuffle-refl d;
  keys_all = λ _ ks. Shuffle-refl ks;
  changes_all = λ d. Shuffle-refl d;
}

abbrev pub smoothing : Model
smoothing = record {
  type = holt_winter;
  need_train = false;
  update_interval = pos 0;
  attr =
      (codes "slen", codes "12")
      ∷ (codes "look_forward", codes "24")
      ∷ (codes "look_backward", codes "24")
      ∷ (codes "alpha", codes "7")
      ∷ (codes "beta", codes "2")
      ∷ (codes "gamma", codes "9")
      ∷ [];
}

abbrev pub spec : AomSpec
spec = record {
  scale_target_ref = app;
  min_replicas = pos 1;
  max_replicas = pos 5;
  address = codes "http://prometheus";
  scrape_interval = pos 1;
  metrics = (codes "entity1", requests) ∷ [];
  models = (codes "entity1", smoothing ∷ []) ∷ [];
  interval = pos 1;
}

abbrev pub no_metrics : MetricState
no_metrics = record { cells = []; metric_map = [] }

pub no_metrics-IsValid : IsValid 0 []
unfolding lookup
no_metrics-IsValid k p e = cc

handle_metrics-keys_example :
    let r = handle_metrics in_order spec no_metrics in
    (r.0 ≡ ok tt)
    × ((j : Text) → has j r.1.metric_map ≡ mem j (spec_keys spec))
    × IsValid (length r.1.cells) r.1.metric_map
handle_metrics-keys_example =
    handle_metrics-keys in_order spec no_metrics in_order-IsRanges no_metrics-IsValid

handle_models-Handled_example : Handled (spec_wmks spec.metrics spec.models) (
    handle_models in_order spec
      (record { cells = []; model_map = []; temp_map = []; change_map = [] }))
handle_models-Handled_example =
    handle_models-Handled in_order spec
      (record { cells = []; model_map = []; temp_map = []; change_map = [] }) in_order-IsRanges
      no_metrics-IsValid

abbrev pub latency : Metric
latency = record requests { name = codes "latency" }

-- Two metrics.
abbrev both : AomSpec
both = record spec { metrics = (codes "entity1", requests) ∷ (codes "entity2", latency) ∷ [] }

apart : (s t : Text) → same s t ≡ false → s ≡ t → ⊥
apart s t n e = ground arith

both-Distinct : Distinct (map no_model_key (metric_values both.metrics))
unfolding no_model_key Text-discrete
both-Distinct = (
  λ i. elim i [
    | inl e ↦ apart (no_model_key requests) (no_model_key latency) refl e
    | inr j ↦ elim j [ ]
  ],
  ((λ i. elim i [ ]), tt),
)

handle_metrics-Reads_example :
    Reads
      (last_metric zero_metric (metric_values both.metrics))
      (handle_metrics in_order both no_metrics).1
handle_metrics-Reads_example =
    handle_metrics-Reads in_order both [] requests in_order-IsRanges both-Distinct (inl refl)

abbrev pub aom_sample : Aom
aom_sample = record {
  namespace = codes "default";
  name = codes "aom-sample";
  generation = pos 1;
  spec = spec;
  status = record { status_collectors = []; generation = pos 0 };
}

-- A process that has handled nothing, and the sample.
abbrev pub fresh : World whole one_target
fresh = record {
  hide = record {
    collector_map = [];
    metric_map = [];
    predictor_map = [];
    collector_worker_map = [];
    model_map = [];
    train_history = [];
    scaler = none;
  };
  heap = record { metrics = []; models = []; channels = []; workers = [] };
  p_collector = none;
  client = record { once = false; set = false; cluster = pos 1 };
  schedulers = [];
  tasks = [];
  loops = [];
  aom = aom_sample;
}

abbrev pub answers : Outside whole one_target
answers = record {
  json = λ attr tag. or_empty (lookup tag attr);
  connect = record {
    build_config_from_flags = ok tt;
    new_clientset_for_config = ok tt;
    get_api_group_resources = ok tt;
    new_scales_for_config = ok tt;
  };
  api_new_client = ok tt;
  update_status = ok tt;
  ranges = in_order;
}

unfoldable pub created : Result (Unit {0}) × World whole one_target
unfolding set_server_address handle handle_metrics handle_models handle_collector handle_predictor
    new_client lookup insert has keys mem erase Text-discrete no_model_key with_model_key
    Metric-discrete Model-discrete
created = handle whole one_target answers fresh

created_eq : handle whole one_target answers fresh ≡ (ok tt, created.1)
unfolding created
created_eq = refl

handle_twice_example : handle whole one_target answers created.1 ≡ (ok tt, created.1)
handle_twice_example = handle_twice whole one_target answers answers fresh created_eq

-- The sample's metric is collected; its channel is open.
abbrev collecting : CollectorState whole
collecting = record {
  channels = false ∷ [];
  workers = record { name = []; unit = []; promql = []; samples = []; client = none } ∷ [];
  collector_map = (codes "m", 0) ∷ [];
  collector_worker_map = (codes "m", 0) ∷ [];
  p_collector = none;
  tasks = [];
}

abbrev emptied : AomSpec
emptied = record spec { metrics = []; models = [] }

abbrev collected_none : CollectorState whole
collected_none = record collecting { channels = true ∷ []; collector_worker_map = [] }

collected_none_eq : handle_collector whole in_order emptied collecting ≡ (ok [], collected_none)
unfolding handle_collector lookup keys mem erase Text-discrete
collected_none_eq = refl

has_m : has (codes "m") collecting.collector_map ≡ true
unfolding has Text-discrete
has_m = refl

none_m : mem (codes "m") [] ≡ false
unfolding mem
none_m = refl

handle_collector_again_example : (handle_collector whole in_order emptied collected_none).0 ≡ panic
handle_collector_again_example =
    handle_collector_again whole in_order in_order emptied emptied (codes "m") collecting
      in_order-IsRanges in_order-IsRanges has_m none_m none_m collected_none_eq
