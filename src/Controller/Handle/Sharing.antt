-- ===== src/Controller/Handle/Sharing.antt =====
-- Where the model pointers of an instance lead after its first successful `Reconcile`.
use aom.Base.{[], List, ◌≡◌, ap, subst, ◌∙◌, Result, ok, err, panic, false}
use aom.Base.Action.{and_then-returns}
use aom.Floats.{Floats}
use aom.K8s.{Scales}
use aom.Controller.{Aom, AomSpec, StatusCollector, Ranges, IsRanges}
use aom.Controller.Models.{ModelState}
use aom.Controller.Models.Sharing.{AllLead, handle_models-AllLead}
use aom.Controller.Collectors.{CollectorState, handle_collector}
use aom.Controller.Handle.{
  Outside, World, start_scheduler, handle_update, run_metrics, run_models, run_collector,
  run_predictor, store_status, with_collectors, set_generation, reconcile, found,
}
use aom.Controller.Handle.Opened.{prepared-IsSetUp}
use aom.Controller.Handle.Through.{IsNew, IsLeft, reconcile-leaves}

module _ {F : Floats} {K : Scales} where
  -- Every stored pointer to a model leads to the last model of a key of the spec that has the model.
  abbrev pub IsLeading : AomSpec → World F K → Type 0
  IsLeading spec w = AllLead spec w.heap.models w.hide.model_map

  -- No model is stored.
  abbrev IsBare : World F K → Type 0
  IsBare w = w.hide.model_map ≡ []

  store_status-IsLeading :
      (spec : AomSpec) (r : Result (List StatusCollector)) (w : World F K)
      → IsLeading spec w
      → IsLeading spec (store_status F K r w).1
  unfolding store_status
  store_status-IsLeading spec (ok l) w h = h
  store_status-IsLeading spec (err e) w h = h
  store_status-IsLeading spec panic w h = h

  run_collector-IsLeading :
      (spec : AomSpec) (o : Ranges) (w : World F K)
      → IsLeading spec w
      → IsLeading spec (run_collector F K o w).1
  unfolding run_collector
  run_collector-IsLeading spec o w h =
      let state : CollectorState F = record {
        channels = w.heap.channels;
        workers = w.heap.workers;
        collector_map = w.hide.collector_map;
        collector_worker_map = w.hide.collector_worker_map;
        p_collector = w.p_collector;
        tasks = w.tasks;
      } in
      let call = handle_collector F o w.aom.spec state in
      store_status-IsLeading spec call.0 (with_collectors F K w call.1) h

  handle_update-IsLeading :
      (x : Outside F K) (w : World F K) {w' : World F K}
      → IsRanges x.ranges
      → IsBare w
      → handle_update F K x w ≡ (ok tt, w')
      → IsLeading w.aom.spec w'
  unfolding handle_update run_metrics run_models run_predictor
  handle_update-IsLeading x w law bare e =
      let o = x.ranges in
      let a = (run_metrics F K o w).1 in
      let b = (run_models F K o a).1 in
      let k = (run_collector F K o b).1 in
      let (_, _, e₁) = and_then-returns (run_metrics F K o w) _ e in
      let (_, _, e₂) = and_then-returns (run_models F K o a) _ e₁ in
      let (_, _, e₃) = and_then-returns (run_collector F K o b) _ e₂ in
      let state : ModelState = record {
        cells = a.heap.models;
        model_map = a.hide.model_map;
        temp_map = [];
        change_map = [];
      } in
      let stored : IsLeading w.aom.spec b = handle_models-AllLead o w.aom.spec state law bare in
      subst (IsLeading w.aom.spec) (ap (λ (r : Result (Unit {0}) × World F K). r.1) e₃)
        (run_collector-IsLeading w.aom.spec o b stored)

  IsLeading-IsLeft : (x : Outside F K) → IsRanges x.ranges → IsLeft x IsBare IsBare IsLeading
  unfolding start_scheduler set_generation
  IsLeading-IsLeft x law = record {
    by_client = λ w c h. h;
    by_prepared = λ w h. (prepared-IsSetUp x w).same_models ∙ h;
    by_older = λ w _ h. h;
    by_update = λ w h e. handle_update-IsLeading x w law h e;
    by_scheduler = λ spec w h. h;
    by_generation = λ spec w h. h;
  }

  -- A successful `Reconcile` of a new generation that begins with no stored model leaves every
  -- pointer to a model at the last model of a key of the spec that has the model.
  pub reconcile-IsLeading :
      (x : Outside F K) (aom : Aom) (w : World F K) {w' : World F K}
      → IsRanges x.ranges
      → IsBare w
      → IsNew aom
      → reconcile F K x (found aom) w ≡ (record { requeue = false; result = ok tt }, w')
      → IsLeading aom.spec w'
  reconcile-IsLeading x aom w law bare n e =
      reconcile-leaves x (IsLeading-IsLeft x law) aom w bare n e
