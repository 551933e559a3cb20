-- ===== src/Controller/Handle.antt =====
-- `handleCreate`, `handleUpdate`, `Handle` and `Reconcile`, and `GetOrNew` of scheduler/scheduler.go.
-- The whole state of an instance and of the globals that the handlers use.
pub mod Settled
pub mod Frame
pub mod Sound
pub mod Kept
pub mod InStep
pub mod Alike
pub mod Loops
pub mod Through
pub mod Done
pub mod Complete
pub mod Returning
pub mod Opened
pub mod Succeeding
pub mod Growing
pub mod History
pub mod Sharing
pub mod Panics
use aom.Base.{
  ℕ, Bool, true, false, Text, List, [], ◌∷◌, ◌++◌, map, Option, none, some, Error, Result, ok, err,
  panic, if◌then◌else◌, ite, not, ◌&&◌,
}
use aom.Base.Int.{ℤ, pos, ltb_ℤ, eqb_ℤ}
use aom.Base.Dict.{Dict}
use aom.Base.Action.{Action, pure, raise, lift, gets, modify, and_then, ◌>>=◌, ◌>>◌}
use aom.Basetype.{Metric, Model}
use aom.Floats.{Floats}
use aom.K8s.{Scales, Client, Connect, new_client}
use aom.Collector.{Promc, Worker, set_server_address}
use aom.Collector
use aom.Ptype.{Json}
use aom.Scaler
use aom.Aomtype.{Hide, Heap, Name, same_name}
use aom.Controller.{AomSpec, AomStatus, Aom, StatusCollector, Ranges}
use aom.Controller.Metrics.{MetricState, handle_metrics}
use aom.Controller.Models.{ModelState, handle_models}
use aom.Controller.Collectors.{WorkerTask, CollectorState, handle_collector}
use aom.Controller.Predictors.{PredictorState, handle_predictor}

-- `scheduler.Scheduler`; the interval in seconds.
pub record Scheduler : Type 0 where
  pub name : Name
  pub interval : ℤ

unfoldable pub find_scheduler : Name → List Scheduler → Option Scheduler
find_scheduler n [] = none
find_scheduler n (s ∷ ss) = if same_name n s.name then some s else find_scheduler n ss

-- `GetOrNew`: the scheduler of that name, and the map, which has it afterwards.
unfoldable pub get_or_new : Name → ℤ → List Scheduler → Scheduler × List Scheduler
unfolding find_scheduler
get_or_new name interval schedulers = elim (find_scheduler name schedulers) [
  | some s ↦ (s, schedulers)
  | none ↦
      let s : Scheduler = record { name = name; interval = interval } in (s, schedulers ++ s ∷ [])
]

module _ (F : Floats) (K : Scales) where
  -- What the outside answers during one call: the JSON package, the connection to Kubernetes, the
  -- constructor of the Prometheus client, the status update, and the orders of the ranges.
  pub record Outside : Type 0 where
    pub json : Json
    pub connect : Connect K
    pub api_new_client : Result (Unit {0})
    pub update_status : Result (Unit {0})
    pub ranges : Ranges

  -- The instance's entry of the store, the cells, the globals, the goroutines that were started,
  -- and the instance that is handled.
  pub record World : Type 0 where
    pub hide : Hide F
    pub heap : Heap F
    pub p_collector : Option Promc
    pub client : Client K
    pub schedulers : List Scheduler
    pub tasks : List WorkerTask
    pub loops : List Scheduler
    pub aom : Aom

  abbrev with_metrics : World → MetricState → World
  with_metrics w s = record w {
    hide = record w.hide { metric_map = s.metric_map };
    heap = record w.heap { metrics = s.cells };
  }

  unfoldable pub run_metrics : Ranges → Action World (Unit {0})
  run_metrics o w =
      let (r, s) =
        handle_metrics o w.aom.spec
          (record { cells = w.heap.metrics; metric_map = w.hide.metric_map }) in
      (r, with_metrics w s)

  abbrev with_models : World → ModelState → World
  with_models w s = record w {
    hide = record w.hide { model_map = s.model_map };
    heap = record w.heap { models = s.cells };
  }

  unfoldable pub run_models : Ranges → Action World (Dict Model)
  run_models o w =
      let (r, s) = handle_models o w.aom.spec (record {
        cells = w.heap.models;
        model_map = w.hide.model_map;
        temp_map = [];
        change_map = [];
      }) in
      (r, with_models w s)

  abbrev pub with_collectors : World → CollectorState F → World
  with_collectors w s = record w {
    hide = record w.hide {
      collector_map = s.collector_map;
      collector_worker_map = s.collector_worker_map;
    };
    heap = record w.heap { channels = s.channels; workers = s.workers };
    p_collector = s.p_collector;
    tasks = s.tasks;
  }

  unfoldable pub store_status : Result (List StatusCollector) → Action World (Unit {0})
  store_status (ok l) w = (
    ok tt,
    record w { aom = record w.aom { status = record w.aom.status { status_collectors = l } } },
  )
  store_status (err e) w = (err e, w)
  store_status panic w = (panic, w)

  unfoldable pub run_collector : Ranges → Action World (Unit {0})
  unfolding store_status
  run_collector o w =
      let (r, s) = handle_collector F o w.aom.spec (record {
        channels = w.heap.channels;
        workers = w.heap.workers;
        collector_map = w.hide.collector_map;
        collector_worker_map = w.hide.collector_worker_map;
        p_collector = w.p_collector;
        tasks = w.tasks;
      }) in
      store_status r (with_collectors w s)

  abbrev with_predictors : World → PredictorState F → World
  with_predictors w s = record w {
    hide = record w.hide { predictor_map = s.predictor_map };
    heap = record w.heap { workers = s.workers };
  }

  unfoldable pub run_predictor : Json → Ranges → Dict Model → Action World (Unit {0})
  run_predictor json o change_map w =
      let (r, s) = handle_predictor F json o w.aom.spec change_map (record {
        workers = w.heap.workers;
        collector_worker_map = w.hide.collector_worker_map;
        predictor_map = w.hide.predictor_map;
      }) in
      (r, with_predictors w s)

  -- The four handlers in their order, which creation and update share.
  unfoldable pub handle_update : Outside → Action World (Unit {0})
  unfolding run_metrics run_models run_collector run_predictor
  handle_update x = do
    run_metrics x.ranges
    changes ← run_models x.ranges
    run_collector x.ranges
    run_predictor x.json x.ranges changes

  -- `promcOnce.Do` makes the collector once.
  unfoldable pub init_collector : World → World
  unfolding Collector.new
  init_collector w = elim w.p_collector [
    | none ↦ record w { p_collector = some Collector.new }
    | some p ↦ w
  ]

  unfoldable pub set_address : Result (Unit {0}) → Option Promc → Action World (Unit {0})
  set_address answer none w = (panic, w)
  set_address answer (some p) w =
      let (r, p') = set_server_address answer w.aom.spec.address p in
      (r, record w { p_collector = some p' })

  unfoldable pub init_scaler : World → World
  unfolding Scaler.new
  init_scaler w = record w {
    hide = record w.hide {
      scaler = some (
          Scaler.new w.aom.namespace w.aom.spec.scale_target_ref w.aom.spec.max_replicas
            w.aom.spec.min_replicas);
    };
  }

  -- `GetOrNew`, and a goroutine that runs the scheduler.
  unfoldable pub start_scheduler : World → World
  unfolding get_or_new
  start_scheduler w =
      let (s, schedulers) =
        get_or_new (w.aom.namespace, w.aom.name) w.aom.spec.interval w.schedulers in
      record w { schedulers = schedulers; loops = w.loops ++ s ∷ [] }

  unfoldable pub handle_create : Outside → Action World (Unit {0})
  unfolding init_collector set_address init_scaler run_metrics run_models run_collector
      run_predictor
  handle_create x = do
    modify init_collector
    (λ w. set_address x.api_new_client w.p_collector w)
    modify init_scaler
    run_metrics x.ranges
    changes ← run_models x.ranges
    run_collector x.ranges
    run_predictor x.json x.ranges changes
    modify start_scheduler

  unfoldable pub run_client : Connect K → Action World (Unit {0})
  run_client c w = let (r, k) = new_client K c w.client in (r, record w { client = k })

  -- Creation when no generation was handled yet, update when an older one was.
  unfoldable pub dispatch : Outside → Action World (Unit {0})
  unfolding handle_create handle_update
  dispatch x w =
      if eqb_ℤ w.aom.status.generation (pos 0)
      then handle_create x w
      else if ltb_ℤ w.aom.status.generation w.aom.generation
      then handle_update x w
      else (ok tt, w)

  unfoldable pub set_generation : World → World
  set_generation w = record w {
    aom = record w.aom { status = record w.aom.status { generation = w.aom.generation } };
  }

  unfoldable pub handle : Outside → Action World (Unit {0})
  unfolding dispatch run_client set_generation new_client
  handle x w =
      if eqb_ℤ w.aom.status.generation w.aom.generation
      then (ok tt, w)
      else (do run_client x.connect; dispatch x; modify set_generation; lift x.update_status) w

  -- What the API server answers to the read of the instance.
  pub data Fetched : Type 0 where
    found : Aom → Fetched
    not_found : Fetched
    failed : Error → Fetched

  -- `ctrl.Result` and the error: whether the request is queued again after the retry period.
  pub record Reconciled : Type 0 where
    pub requeue : Bool
    pub result : Result (Unit {0})

  unfoldable pub reconciled : Result (Unit {0}) × World → Reconciled × World
  reconciled (ok _, w) = (record { requeue = false; result = ok tt }, w)
  reconciled (err e, w) = (record { requeue = true; result = err e }, w)
  reconciled (panic, w) = (record { requeue = false; result = panic }, w)

  unfoldable pub reconcile : Outside → Fetched → World → Reconciled × World
  unfolding handle reconciled
  reconcile x (found aom) w = reconciled (handle x (record w { aom = aom }))
  reconcile x not_found w = (record { requeue = false; result = ok tt }, w)
  reconcile x (failed e) w = (record { requeue = true; result = err e }, w)
