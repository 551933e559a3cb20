-- ===== src/Controller/Handle/Sound.antt =====
-- What the four handlers and an update keep of the stored pointers.
use aom.Base.{arith, Text, List, [], Option, none, some, ◌≡◌, Result, ok, err, panic, length}
use aom.Base.Dict.{Dict, has, mem}
use aom.Basetype.{Model}
use aom.Floats.{Floats}
use aom.K8s.{Scales}
use aom.Ptype.{Json}
use aom.Controller.{AomSpec, StatusCollector, Ranges, IsRanges}
use aom.Controller.Metrics.Keys.{IsValid, spec_keys, handle_metrics-keys}
use aom.Controller.Models.{ModelState, handle_models}
use aom.Controller.Models.Keys.{Handled, spec_wmks, handle_models-Handled}
use aom.Controller.Collectors.{CollectorState, handle_collector}
use aom.Controller.Collectors.Workers.{handle_collector-HasWorkers}
use aom.Controller.Predictors.{PredictorState}
use aom.Controller.Predictors.Safety.{handle_predictor-no_panic}
use aom.Controller.Handle.{
  World, run_metrics, run_models, run_collector, run_predictor, store_status, with_collectors,
}

-- Every stored pointer to a metric, a model or a worker leads to a cell.
pub record IsSound {F : Floats} {K : Scales} (w : World F K) : Type 0 where
  pub metric_cells : IsValid (length w.heap.metrics) w.hide.metric_map
  pub model_cells : IsValid (length w.heap.models) w.hide.model_map
  pub worker_cells : IsValid (length w.heap.workers) w.hide.collector_worker_map

-- Both outcomes of `handleModels` keep its pointers valid.
handle_models-IsValid :
    (o : Ranges) (spec : AomSpec) (s : ModelState)
    → IsRanges o
    → IsValid (length s.cells) s.model_map
    → IsValid (length (handle_models o spec s).1.cells) (handle_models o spec s).1.model_map
unfolding Handled
handle_models-IsValid o spec s law v =
    elim (spec_wmks spec.metrics (o.models 0 spec.models))
        as (λ (m : Option (List Text)).
          Handled m (handle_models o spec s)
          → IsValid (length (handle_models o spec s).1.cells)
              (handle_models o spec s).1.model_map) [ none ↦ λ h. h.1 | some ws ↦ λ h. h.4 ]
      (handle_models-Handled o spec s law v)

module _ {F : Floats} {K : Scales} where
  pub run_metrics-facts :
      (o : Ranges) (w : World F K)
      → IsRanges o
      → IsSound w
      → let w' = (run_metrics F K o w).1 in
        ((run_metrics F K o w).0 ≡ ok tt)
        × ((j : Text) → has j w'.hide.metric_map ≡ mem j (spec_keys w.aom.spec))
        × IsValid (length w'.heap.metrics) w'.hide.metric_map
  unfolding run_metrics
  run_metrics-facts o w law h =
      handle_metrics-keys o w.aom.spec
        (record { cells = w.heap.metrics; metric_map = w.hide.metric_map }) law h.metric_cells

  pub run_metrics-IsSound :
      (o : Ranges) (w : World F K) → IsRanges o → IsSound w → IsSound (run_metrics F K o w).1
  unfolding run_metrics
  run_metrics-IsSound o w law h = record {
    metric_cells = (run_metrics-facts o w law h).2;
    model_cells = h.model_cells;
    worker_cells = h.worker_cells;
  }

  pub run_models-IsSound :
      (o : Ranges) (w : World F K) → IsRanges o → IsSound w → IsSound (run_models F K o w).1
  unfolding run_models
  run_models-IsSound o w law h = record {
    metric_cells = h.metric_cells;
    model_cells =
        handle_models-IsValid o w.aom.spec
          (record {
            cells = w.heap.models;
            model_map = w.hide.model_map;
            temp_map = [];
            change_map = [];
          })
          law h.model_cells;
    worker_cells = h.worker_cells;
  }

  store_status-IsSound :
      (r : Result (List StatusCollector)) (w : World F K)
      → IsSound w
      → IsSound (store_status F K r w).1
  unfolding store_status
  store_status-IsSound (ok l) w h = record {
    metric_cells = h.metric_cells;
    model_cells = h.model_cells;
    worker_cells = h.worker_cells;
  }
  store_status-IsSound (err e) w h = h
  store_status-IsSound panic w h = h

  pub run_collector-IsSound :
      (o : Ranges) (w : World F K) → IsSound w → IsSound (run_collector F K o w).1
  unfolding run_collector
  run_collector-IsSound o w h =
      let state : CollectorState F = record {
        channels = w.heap.channels;
        workers = w.heap.workers;
        collector_map = w.hide.collector_map;
        collector_worker_map = w.hide.collector_worker_map;
        p_collector = w.p_collector;
        tasks = w.tasks;
      } in
      let call = handle_collector F o w.aom.spec state in
      store_status-IsSound call.0 (with_collectors F K w call.1) (record {
        metric_cells = h.metric_cells;
        model_cells = h.model_cells;
        worker_cells = handle_collector-HasWorkers F o w.aom.spec state h.worker_cells;
      })

  pub run_predictor-IsSound :
      (json : Json) (o : Ranges) (changes : Dict Model) (w : World F K)
      → IsSound w
      → IsSound (run_predictor F K json o changes w).1
  unfolding run_predictor
  run_predictor-IsSound json o changes w h =
      let state : PredictorState F = record {
        workers = w.heap.workers;
        collector_worker_map = w.hide.collector_worker_map;
        predictor_map = w.hide.predictor_map;
      } in
      let (_, _, size) =
        handle_predictor-no_panic F json o w.aom.spec changes state h.worker_cells in
      record {
        metric_cells = h.metric_cells;
        model_cells = h.model_cells;
        worker_cells = λ k p e. omega (arith, h.worker_cells k p e, size);
      }
