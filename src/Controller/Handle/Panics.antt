-- ===== src/Controller/Handle/Panics.antt =====
-- Which handler an update can panic in.
use aom.Base.{Text, List, [], Option, none, some, Result, panic, ◌≡◌, ◌≢◌, inl, inr}
use aom.Base.Action.{and_then-panics}
use aom.Base.Dict.{Dict}
use aom.Basetype.{Model}
use aom.Floats.{Floats}
use aom.K8s.{Scales}
use aom.Ptype.{Json}
use aom.Controller.{Ranges, IsRanges}
use aom.Controller.Models.{ModelState, handle_models}
use aom.Controller.Models.Keys.{Handled, spec_wmks, handle_models-Handled}
use aom.Controller.Predictors.{PredictorState}
use aom.Controller.Predictors.Safety.{handle_predictor-no_panic}
use aom.Controller.Handle.{
  Outside, World, run_metrics, run_models, run_collector, run_predictor, handle_update,
}
use aom.Controller.Handle.Sound.{
  IsSound, run_metrics-facts, run_metrics-IsSound, run_models-IsSound, run_collector-IsSound,
}

Handled-no_panic :
    (asked : Option (List Text)) (r : Result (Dict Model) × ModelState)
    → Handled asked r
    → r.0 ≢ panic
unfolding Handled
Handled-no_panic none r h = let e = h.0 in λ p. cc
Handled-no_panic (some ws) r h = let e = h.1 in λ p. cc

module _ {F : Floats} {K : Scales} where
  run_metrics-no_panic :
      (o : Ranges) (w : World F K) → IsRanges o → IsSound w → (run_metrics F K o w).0 ≢ panic
  run_metrics-no_panic o w law h = let e = (run_metrics-facts o w law h).0 in λ p. cc

  run_models-no_panic :
      (o : Ranges) (w : World F K) → IsRanges o → IsSound w → (run_models F K o w).0 ≢ panic
  unfolding run_models
  run_models-no_panic o w law h =
      let state : ModelState = record {
        cells = w.heap.models;
        model_map = w.hide.model_map;
        temp_map = [];
        change_map = [];
      } in
      Handled-no_panic (spec_wmks w.aom.spec.metrics (o.models 0 w.aom.spec.models))
        (handle_models o w.aom.spec state)
        (handle_models-Handled o w.aom.spec state law h.model_cells)

  run_predictor-no_panic :
      (json : Json) (o : Ranges) (changes : Dict Model) (w : World F K)
      → IsSound w
      → (run_predictor F K json o changes w).0 ≢ panic
  unfolding run_predictor
  run_predictor-no_panic json o changes w h =
      let state : PredictorState F = record {
        workers = w.heap.workers;
        collector_worker_map = w.hide.collector_worker_map;
        predictor_map = w.hide.predictor_map;
      } in
      (handle_predictor-no_panic F json o w.aom.spec changes state h.worker_cells).0

  -- When every stored pointer leads to a cell and `handleUpdate` panics, then it does so in
  -- `handleCollector`: the handlers of the metrics, the models and the predictors do not panic,
  -- whatever the spec and the orders of the ranges.
  pub handle_update-panics :
      (x : Outside F K) (w : World F K)
      → IsRanges x.ranges
      → IsSound w
      → (handle_update F K x w).0 ≡ panic
      → let a = (run_metrics F K x.ranges w).1 in
        let b = (run_models F K x.ranges a).1 in (run_collector F K x.ranges b).0 ≡ panic
  unfolding handle_update
  handle_update-panics x w law h e =
      let a = (run_metrics F K x.ranges w).1 in
      let b = (run_models F K x.ranges a).1 in
      let c = (run_collector F K x.ranges b).1 in
      let ha = run_metrics-IsSound x.ranges w law h in
      let hb = run_models-IsSound x.ranges a law ha in
      elim (and_then-panics (run_metrics F K x.ranges w) _ e) [
        | inl p ↦ absurd (run_metrics-no_panic x.ranges w law h p)
        | inr (_, _, e₁) ↦ elim (and_then-panics (run_models F K x.ranges a) _ e₁) [
          | inl p ↦ absurd (run_models-no_panic x.ranges a law ha p)
          | inr (changes, _, e₂) ↦ elim (and_then-panics (run_collector F K x.ranges b) _ e₂) [
            | inl p ↦ p
            | inr (_, _, e₃) ↦ absurd (
                run_predictor-no_panic x.json x.ranges changes c
                  (run_collector-IsSound x.ranges b hb) e₃)
          ]
        ]
      ]
