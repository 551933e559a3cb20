-- ===== src/Controller/Handle/Returning.antt =====
-- When `handleUpdate` returns without an error.
use aom.Base.{
  ℕ, true, Text, List, [], ◌∷◌, ◌++◌, Option, none, some, ◌≡◌, refl, sym, ap, subst, ◌∙◌, Result,
  ok, err, panic, All, All-map,
}
use aom.Base.Dict.{Dict, lookup, has, mem}
use aom.Base.Action.{and_then-ok}
use aom.Basetype.{Metric, Model}
use aom.Floats.{Floats}
use aom.K8s.{Scales}
use aom.Collector.{Promc}
use aom.Ptype.{Json}
use aom.Base.Shuffle.{Shuffle-sym, Shuffle-All}
use aom.Controller.{StatusCollector, Ranges, IsRanges}
use aom.Controller.Metrics.Keys.{spec_keys}
use aom.Controller.Models.{ModelState, handle_models}
use aom.Controller.Models.Keys.{Handled, wmks_of, spec_wmks, handle_models-Handled}
use aom.Controller.Models.Changes.{handle_models-All}
use aom.Controller.Collectors.{CollectorState, handle_collector}
use aom.Controller.Collectors.Adding.{handle_collector-starts}
use aom.Controller.Predictors.Returning.{FitsChange, handle_predictor-returns}
use aom.Controller.Handle.Sound.{
  IsSound, run_metrics-facts, run_metrics-IsSound, run_models-IsSound, run_collector-IsSound,
}
use aom.Controller.Handle.{
  Outside, World, run_metrics, run_models, run_collector, run_predictor, store_status,
  with_collectors, handle_update,
}
use aom.Controller.Handle.Complete.{IsComplete, complete-Fits, complete-Each}

-- A `handleModels` that has no key without a metric.
complete_wmks :
    (metrics : Dict Metric) (d : Dict (List Model))
    → All (λ (e : Text × List Model). (metric : Metric) × (lookup e.0 metrics ≡ some metric)) d
    → (ws : List Text) × (spec_wmks metrics d ≡ some ws)
complete_wmks metrics [] h = ([], refl)
complete_wmks metrics ((k, models) ∷ rest) ((metric, e), hs) =
    let (ws, f) = complete_wmks metrics rest hs in
    (wmks_of metric models ++ ws, rw (e, f, spec_wmks) refl)

Handled-returns :
    (asked : Option (List Text)) (r : Result (Dict Model) × ModelState) {ws : List Text}
    → asked ≡ some ws
    → Handled asked r
    → (changes : Dict Model) × (r.0 ≡ ok changes)
unfolding Handled
Handled-returns none r e h = cc
Handled-returns (some ws) r e h = (h.0, h.1)

module _ {F : Floats} {K : Scales} where
  run_models-returns :
      (json : Json) (o : Ranges) (w : World F K)
      → IsRanges o
      → IsSound w
      → IsComplete F json w.aom.spec
      → (changes : Dict Model) × ((run_models F K o w).0 ≡ ok changes)
  unfolding run_models
  run_models-returns json o w law h c =
      let spec = w.aom.spec in
      let state : ModelState = record {
        cells = w.heap.models;
        model_map = w.hide.model_map;
        temp_map = [];
        change_map = [];
      } in
      let (_, e) = complete_wmks spec.metrics (o.models 0 spec.models) (
        Shuffle-All _ (Shuffle-sym (law.models_all 0 spec.models))
          (All-map spec.models (λ _ k. (k.0, k.1)) c)) in
      Handled-returns (spec_wmks spec.metrics (o.models 0 spec.models)) (handle_models o spec state)
        e (handle_models-Handled o spec state law h.model_cells)

  -- The changes that a call of `handleModels` returns, and the predictors that they make.
  run_models-changes :
      (json : Json) (o : Ranges) (w : World F K) (d : Dict ℕ) {changes : Dict Model}
      → IsRanges o
      → IsComplete F json w.aom.spec
      → ((j : Text) → has j d ≡ mem j (spec_keys w.aom.spec))
      → (run_models F K o w).0 ≡ ok changes
      → All (FitsChange F json d) changes
  unfolding run_models
  run_models-changes json o w d law c here e =
      handle_models-All (FitsChange F json d) o w.aom.spec _ law
        (complete-Each F json d w.aom.spec here c) e

  store_status-returns :
      (r : Result (List StatusCollector)) (w : World F K) {l : List StatusCollector}
      → r ≡ ok l
      → let q = store_status F K r w in
        (q.0 ≡ ok tt)
        × (q.1.aom.spec ≡ w.aom.spec)
        × (q.1.hide.collector_worker_map ≡ w.hide.collector_worker_map)
  unfolding store_status
  store_status-returns (ok l) w e = (refl, refl, refl)
  store_status-returns (err x) w e = cc
  store_status-returns panic w e = cc

  run_collector-facts :
      (o : Ranges) (w : World F K) {p : Promc}
      → IsRanges o
      → w.p_collector ≡ some p
      → ((j : Text) → has j w.hide.collector_map ≡ true → mem j (spec_keys w.aom.spec) ≡ true)
      → ((j : Text) → has j w.hide.collector_worker_map ≡ has j w.hide.collector_map)
      → let r = run_collector F K o w in
        (r.0 ≡ ok tt)
        × (r.1.aom.spec ≡ w.aom.spec)
        × ((j : Text) → has j r.1.hide.collector_worker_map ≡ mem j (spec_keys w.aom.spec))
  unfolding run_collector
  run_collector-facts o w {p} law made inside workers =
      let state : CollectorState F = record {
        channels = w.heap.channels;
        workers = w.heap.workers;
        collector_map = w.hide.collector_map;
        collector_worker_map = w.hide.collector_worker_map;
        p_collector = w.p_collector;
        tasks = w.tasks;
      } in
      let done = handle_collector-starts F o w.aom.spec state law made inside workers in
      let call = handle_collector F o w.aom.spec state in
      let (e, f, g) = store_status-returns call.0 (with_collectors F K w call.1) done.0 in
      (e, f, λ j. ap (has j) g ∙ done.2 j)

  run_predictor-returns :
      (json : Json) (o : Ranges) (changes : Dict Model) (w : World F K)
      → IsRanges o
      → IsSound w
      → IsComplete F json w.aom.spec
      → ((j : Text) → has j w.hide.collector_worker_map ≡ mem j (spec_keys w.aom.spec))
      → All (FitsChange F json w.hide.collector_worker_map) changes
      → (run_predictor F K json o changes w).0 ≡ ok tt
  unfolding run_predictor
  run_predictor-returns json o changes w law h c here k =
      handle_predictor-returns F json o w.aom.spec changes
        (record {
          workers = w.heap.workers;
          collector_worker_map = w.hide.collector_worker_map;
          predictor_map = w.hide.predictor_map;
        })
        law h.worker_cells (complete-Fits F json w.hide.collector_worker_map w.aom.spec here c) k

-- Once the collector was made, if every stored pointer leads to a cell, each key with a channel is
-- that of a metric of the spec and has a worker, every key of the spec's models has a metric, and
-- `NewPredictor` makes a predictor of each model under its key, whose type has no dollar sign, then
-- `handleUpdate` returns without an error, in whatever orders the ranges visit.
pub handle_update-returns :
    {F : Floats} {K : Scales} (x : Outside F K) (w : World F K) {p : Promc}
    → IsRanges x.ranges
    → IsSound w
    → w.p_collector ≡ some p
    → ((j : Text) → has j w.hide.collector_map ≡ true → mem j (spec_keys w.aom.spec) ≡ true)
    → ((j : Text) → has j w.hide.collector_worker_map ≡ has j w.hide.collector_map)
    → IsComplete F x.json w.aom.spec
    → (handle_update F K x w).0 ≡ ok tt
unfolding handle_update run_metrics run_models
handle_update-returns {F} {K} x w {p} law h made inside workers c =
    let o = x.ranges in
    let a = (run_metrics F K o w).1 in
    let b = (run_models F K o a).1 in
    let k = (run_collector F K o b).1 in
    let ha = run_metrics-IsSound o w law h in
    let hb = run_models-IsSound o a law ha in
    let (changes, e) = run_models-returns x.json o a law ha c in
    let (f, spec, here) = run_collector-facts o b law made inside workers in
    let d = k.hide.collector_worker_map in
    let fits = run_models-changes x.json o a d law c here e in
    let last =
      run_predictor-returns x.json o changes k law (run_collector-IsSound o b hb)
        (subst (IsComplete F x.json) (sym spec) c)
        (λ j. here j ∙ ap (λ s. mem j (spec_keys s)) (sym spec)) fits in
    ap (λ (r : Result (Unit {0}) × World F K). r.0)
      (and_then-ok (run_metrics F K o w) _ (run_metrics-facts o w law h).0
        ∙ (and_then-ok (run_models F K o a) _ e ∙ and_then-ok (run_collector F K o b) _ f))
    ∙ last
