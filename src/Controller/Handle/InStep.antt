-- ===== src/Controller/Handle/InStep.antt =====
-- What a successful update leaves behind.
use aom.Base.{
  true, Text, List, [], ◌≡◌, sym, ap, subst, ◌∙◌, Result, ok, err, panic, length, arith, inl, inr,
  Option-cases, ok_injective,
}
use aom.Base.Dict.{Dict, mem, has}
use aom.Base.Action.{and_then-returns}
use aom.Basetype.{Model}
use aom.Floats.{Floats}
use aom.K8s.{Scales}
use aom.Ptype.{Json}
use aom.Controller.{AomSpec, StatusCollector, Ranges, IsRanges}
use aom.Controller.Metrics.Keys.{IsValid, spec_keys}
use aom.Controller.Models.{ModelState, handle_models}
use aom.Controller.Models.Keys.{Handled, spec_wmks, handle_models-Handled}
use aom.Controller.Predictors.Wanted.{wants, wants-Shuffle, mem-spec_wmks}
use aom.Controller.Predictors.Keys.{handle_predictor-keys}
use aom.Controller.Predictors.{handle_predictor}
use aom.Controller.Collectors.{CollectorState, handle_collector}
use aom.Controller.Collectors.Workers.{handle_collector-HasWorkers}
use aom.Controller.Handle.Sound.{
  IsSound, run_metrics-facts, run_metrics-IsSound, run_predictor-IsSound,
}
use aom.Controller.Handle.{
  Outside, World, run_metrics, run_models, run_collector, run_predictor, store_status,
  with_collectors, handle_update,
}

-- A successful `handleModels`, by the keys that the spec asks for.
handle_models-ok :
    (o : Ranges) (spec : AomSpec) (s : ModelState) {changes : Dict Model}
    → IsRanges o
    → IsValid (length s.cells) s.model_map
    → (handle_models o spec s).0 ≡ ok changes
    → ((j : Text) → has j (handle_models o spec s).1.model_map ≡ wants j spec.metrics spec.models)
      × ((j : Text) → has j changes ≡ true → wants j spec.metrics spec.models ≡ true)
      × IsValid (length (handle_models o spec s).1.cells) (handle_models o spec s).1.model_map
unfolding Handled
handle_models-ok o spec s {changes} law v e =
    let asked = spec_wmks spec.metrics (o.models 0 spec.models) in
    let done = handle_models-Handled o spec s law v in
    elim (Option-cases asked) [
      | inl f ↦ let failed = subst (λ m. Handled m (handle_models o spec s)) f done in cc (failed.0)
      | inr (ws, f) ↦
          let (changes', e', keys, more, cells) =
            subst (λ m. Handled m (handle_models o spec s)) f done in
          let same : (j : Text) → mem j ws ≡ wants j spec.metrics spec.models = λ j.
            mem-spec_wmks j spec.metrics (o.models 0 spec.models) f
            ∙ wants-Shuffle j spec.metrics (law.models_all 0 spec.models) in
          let one : changes' ≡ changes = ok_injective (sym e' ∙ e) in
          (λ j. keys j ∙ same j, λ j h. sym (same j) ∙ more j (ap (has j) one ∙ h), cells)
    ]

-- The maps of metrics, models and predictors have the keys of the spec's metrics and models.
pub record IsInStep {F : Floats} {K : Scales} (w : World F K) : Type 0 where
  pub metric_keys : (j : Text) → has j w.hide.metric_map ≡ mem j (spec_keys w.aom.spec)
  pub model_keys :
      (j : Text) → has j w.hide.model_map ≡ wants j w.aom.spec.metrics w.aom.spec.models
  pub predictor_keys :
      (j : Text) → has j w.hide.predictor_map ≡ wants j w.aom.spec.metrics w.aom.spec.models
  pub sound : IsSound w

module _ {F : Floats} {K : Scales} where
  -- The same without the predictors, which the first two handlers bring about.
  record IsHalf (changes : Dict Model) (w : World F K) : Type 0 where
    metric_keys : (j : Text) → has j w.hide.metric_map ≡ mem j (spec_keys w.aom.spec)
    model_keys : (j : Text) → has j w.hide.model_map ≡ wants j w.aom.spec.metrics w.aom.spec.models
    change_keys :
        (j : Text) → has j changes ≡ true → wants j w.aom.spec.metrics w.aom.spec.models ≡ true
    sound : IsSound w

  store_status-IsHalf :
      (changes : Dict Model) (r : Result (List StatusCollector)) (w : World F K)
      → IsHalf changes w
      → IsHalf changes (store_status F K r w).1
  unfolding store_status
  store_status-IsHalf changes (ok l) w h = record {
    metric_keys = h.metric_keys;
    model_keys = h.model_keys;
    change_keys = h.change_keys;
    sound = record {
      metric_cells = h.sound.metric_cells;
      model_cells = h.sound.model_cells;
      worker_cells = h.sound.worker_cells;
    };
  }
  store_status-IsHalf changes (err e) w h = h
  store_status-IsHalf changes panic w h = h

  run_collector-IsHalf :
      (changes : Dict Model) (o : Ranges) (w : World F K)
      → IsHalf changes w
      → IsHalf changes (run_collector F K o w).1
  unfolding run_collector
  run_collector-IsHalf changes o w h =
      let state : CollectorState F = record {
        channels = w.heap.channels;
        workers = w.heap.workers;
        collector_map = w.hide.collector_map;
        collector_worker_map = w.hide.collector_worker_map;
        p_collector = w.p_collector;
        tasks = w.tasks;
      } in
      let call = handle_collector F o w.aom.spec state in
      store_status-IsHalf changes call.0 (with_collectors F K w call.1) (record {
        metric_keys = h.metric_keys;
        model_keys = h.model_keys;
        change_keys = h.change_keys;
        sound = record {
          metric_cells = h.sound.metric_cells;
          model_cells = h.sound.model_cells;
          worker_cells = handle_collector-HasWorkers F o w.aom.spec state h.sound.worker_cells;
        };
      })

  run_models-facts :
      (o : Ranges) (w : World F K) {changes : Dict Model}
      → IsRanges o
      → IsSound w
      → (run_models F K o w).0 ≡ ok changes
      → let w' = (run_models F K o w).1 in
        let spec = w.aom.spec in
        ((j : Text) → has j w'.hide.model_map ≡ wants j spec.metrics spec.models)
        × ((j : Text) → has j changes ≡ true → wants j spec.metrics spec.models ≡ true)
        × IsValid (length w'.heap.models) w'.hide.model_map
  unfolding run_models
  run_models-facts o w law h e =
      handle_models-ok o w.aom.spec
        (record {
          cells = w.heap.models;
          model_map = w.hide.model_map;
          temp_map = [];
          change_map = [];
        })
        law h.model_cells e

  -- The four handlers in a row, if each of them succeeds.
  module _ (x : Outside F K) (w : World F K) where
    abbrev after_metrics : World F K
    after_metrics = (run_metrics F K x.ranges w).1

    abbrev after_models : World F K
    after_models = (run_models F K x.ranges after_metrics).1

    abbrev after_collector : World F K
    after_collector = (run_collector F K x.ranges after_models).1

    after_collector-IsHalf :
        {changes : Dict Model}
        → IsRanges x.ranges
        → IsSound w
        → (run_models F K x.ranges after_metrics).0 ≡ ok changes
        → IsHalf changes after_collector
    unfolding run_metrics run_models
    after_collector-IsHalf {changes} law h e =
        let metrics = run_metrics-facts x.ranges w law h in
        let models =
          run_models-facts x.ranges after_metrics law (run_metrics-IsSound x.ranges w law h) e in
        run_collector-IsHalf changes x.ranges after_models (record {
          metric_keys = metrics.1;
          model_keys = models.0;
          change_keys = models.1;
          sound = record {
            metric_cells = metrics.2;
            model_cells = models.2;
            worker_cells = h.worker_cells;
          };
        })

  -- The last handler.
  run_predictor-IsInStep :
      (json : Json) (o : Ranges) (changes : Dict Model) (w : World F K) {w' : World F K}
      → IsRanges o
      → IsHalf changes w
      → run_predictor F K json o changes w ≡ (ok tt, w')
      → IsInStep w'
  unfolding run_predictor
  run_predictor-IsInStep json o changes w law h e =
      let call = handle_predictor F json o w.aom.spec changes (record {
        workers = w.heap.workers;
        collector_worker_map = w.hide.collector_worker_map;
        predictor_map = w.hide.predictor_map;
      }) in
      let done = ap (λ (r : Result (Unit {0}) × World F K). r.0) e in
      let made =
        handle_predictor-keys F json o w.aom.spec changes _ law (ap (λ r. (r, call.1)) done) in
      subst IsInStep (ap (λ (r : Result (Unit {0}) × World F K). r.1) e) (record {
        metric_keys = h.metric_keys;
        model_keys = h.model_keys;
        predictor_keys = λ j. ground (arith, made.0 j, h.change_keys j);
        sound = run_predictor-IsSound json o changes w h.sound;
      })

  -- When every stored pointer leads to a cell and `handleUpdate` succeeds, then in whatever orders
  -- the ranges visit, the map of metrics has the keys of the spec's metrics, the maps of models and
  -- of predictors have the keys of the spec's models with their metrics, and every stored pointer
  -- leads to a cell again.
  pub handle_update-IsInStep :
      (x : Outside F K) (w : World F K) {w' : World F K}
      → IsRanges x.ranges
      → IsSound w
      → handle_update F K x w ≡ (ok tt, w')
      → IsInStep w'
  unfolding handle_update
  handle_update-IsInStep x w law h e =
      let (_, m, e₁) = and_then-returns (run_metrics F K x.ranges w) _ e in
      let (changes, f, e₂) = and_then-returns (run_models F K x.ranges (after_metrics x w)) _ e₁ in
      let (_, c, e₃) = and_then-returns (run_collector F K x.ranges (after_models x w)) _ e₂ in
      run_predictor-IsInStep x.json x.ranges changes (after_collector x w) law
        (after_collector-IsHalf x w law h f) e₃
