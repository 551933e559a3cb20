-- ===== src/Tests/Systems.antt =====
-- Updates, creations and rounds over what they leave.
use aom.Base.{
  if◌then◌else◌, Text, List, [], ◌∷◌, ◌++◌, map, codes, some, ◌≡◌, ◌≢◌, refl, Result, ok, panic,
  Text-discrete, true,
}
use aom.Base.Int.{pos}
use aom.Base.Dict.{mem, has, lookup, insert, keys, erase}
use aom.Base.Shuffle.{count}
use aom.Basetype.{Metric, no_model_key, with_model_key, Metric-discrete, Model-discrete}
use aom.Collector
use aom.Collector.{set_server_address}
use aom.Aomtype.{Name, init}
use aom.Scheduler.{start_all}
use aom.Controller.Metrics.{handle_metrics}
use aom.Controller.{metric_values}
use aom.Controller.Metrics.Keys.{spec_keys}
use aom.Controller.Models.{handle_models}
use aom.Controller.Collectors.{WorkerTask, CollectorState, handle_collector}
use aom.Controller.Collectors.Adding.{handle_collector-starts}
use aom.Controller.Predictors.{handle_predictor}
use aom.Controller.Handle.{
  Scheduler, find_scheduler, World, handle_update, handle_create, found, reconcile, run_metrics,
  run_models, run_collector,
}
use aom.Controller.Handle.Sound.{IsSound}
use aom.Controller.Handle.Panics.{handle_update-panics}
use aom.Controller.Handle.Loops.{handle_create-starts}
use aom.System.{IsFresh, Reach, started, stepped, reconciling}
use aom.System.Pointers.{Reach-IsSound, start_all-no_panic}
use aom.Tests.Replicas.{whole, one_target}
use aom.Tests.Reconciling.{
  in_order-IsRanges, no_metrics-IsValid, aom_sample, fresh, answers, in_order, spec,
}
use aom.Tests.Rounds.{forecast}

-- The process with the collector's address set.
abbrev pub prepared : World whole one_target
prepared = record fresh {
  p_collector =
      some (record { metric_ql = []; server_address = []; client = some (codes "http://p") });
}

pub prepared-IsSound : IsSound prepared
prepared-IsSound = record {
  metric_cells = no_metrics-IsValid;
  model_cells = no_metrics-IsValid;
  worker_cells = no_metrics-IsValid;
}

unfoldable updated : Result (Unit {0}) × World whole one_target
unfolding handle_update handle_metrics handle_models handle_collector handle_predictor lookup insert
    has keys mem erase Text-discrete no_model_key with_model_key Metric-discrete Model-discrete
updated = handle_update whole one_target answers prepared

-- A second creation, with the loop of the first one running.
abbrev again : World whole one_target
again = record prepared {
  schedulers = record { name = (codes "default", codes "aom-sample"); interval = pos 60 } ∷ [];
  loops = record { name = (codes "default", codes "aom-sample"); interval = pos 60 } ∷ [];
}

unfoldable created_again : Result (Unit {0}) × World whole one_target
unfolding handle_create handle_metrics handle_models handle_collector handle_predictor
    set_server_address find_scheduler lookup insert has keys mem erase Text-discrete no_model_key
    with_model_key Metric-discrete Model-discrete
created_again = handle_create whole one_target answers again

created_again_eq : handle_create whole one_target answers again ≡ (ok tt, created_again.1)
unfolding created_again
created_again_eq = refl

handle_create-starts_example :
    let n : Name = (codes "default", codes "aom-sample") in
    (s : Scheduler) × (created_again.1.loops ≡ again.loops ++ s ∷ [])
    × (s.name ≡ n)
    × ((t : Scheduler) → find_scheduler n again.schedulers ≡ some t → s ≡ t)
handle_create-starts_example = handle_create-starts answers again created_again_eq

pub fresh-IsFresh : IsFresh whole one_target fresh
unfolding init
fresh-IsFresh = record { no_hide = refl; no_heap = refl }

-- The sample was reconciled once.
abbrev pub reconciled_once : World whole one_target
reconciled_once = (reconcile whole one_target answers (found aom_sample) fresh).1

reconciled_once-Reach : Reach whole one_target reconciled_once
reconciled_once-Reach =
    stepped (started fresh-IsFresh) (reconciling answers (found aom_sample) in_order-IsRanges)

Reach-IsSound_example : IsSound reconciled_once
Reach-IsSound_example = Reach-IsSound reconciled_once-Reach

start_all-no_panic_example :
    start_all whole one_target forecast
      (codes "a$GRU" ∷ [])
      reconciled_once.hide
      reconciled_once.heap
    ≢ panic
start_all-no_panic_example = start_all-no_panic forecast (codes "a$GRU" ∷ []) reconciled_once-Reach

-- The collector is made, and nothing is collected yet.
abbrev quiet : CollectorState whole
quiet = record {
  channels = [];
  workers = [];
  collector_map = [];
  collector_worker_map = [];
  p_collector = some Collector.new;
  tasks = [];
}

quiet-inside : (j : Text) → has j quiet.collector_map ≡ true → mem j (spec_keys spec) ≡ true
unfolding has lookup
quiet-inside j h = cc

handle_collector-starts_example :
    let r = handle_collector whole in_order spec quiet in
    (r.0
      ≡ ok (
          map
            (λ (m : Metric). record { name = m.name; unit = m.unit; expression = m.query })
            (metric_values (in_order.metrics 4 spec.metrics))))
    × ((j : Text) → has j r.1.collector_map ≡ mem j (spec_keys spec))
    × ((j : Text) → has j r.1.collector_worker_map ≡ mem j (spec_keys spec))
    × (ks : List Text) × (map (λ (t : WorkerTask). t.key) r.1.tasks
        ≡ map (λ (t : WorkerTask). t.key) quiet.tasks ++ ks)
    × ((j : Text)
        → count j ks ≡ (if has j quiet.collector_map then 0 else count j (spec_keys spec)))
handle_collector-starts_example =
    handle_collector-starts whole in_order spec quiet in_order-IsRanges refl quiet-inside
      (λ j. refl)

pub fresh-IsSound : IsSound fresh
fresh-IsSound = record {
  metric_cells = no_metrics-IsValid;
  model_cells = no_metrics-IsValid;
  worker_cells = no_metrics-IsValid;
}

-- An update before the collector was made.
fresh_panics : (handle_update whole one_target answers fresh).0 ≡ panic
unfolding handle_update handle_metrics handle_models handle_collector lookup insert has keys mem
    erase Text-discrete no_model_key with_model_key Metric-discrete Model-discrete
fresh_panics = refl

handle_update-panics_example :
    let a = (run_metrics whole one_target in_order fresh).1 in
    let b = (run_models whole one_target in_order a).1 in
    (run_collector whole one_target in_order b).0 ≡ panic
handle_update-panics_example =
    handle_update-panics answers fresh in_order-IsRanges fresh-IsSound fresh_panics
