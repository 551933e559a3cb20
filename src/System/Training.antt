-- ===== src/System/Training.antt =====
-- When a round trains a model.
use aom.Base.{
  false, subst, sym, or_panic, >>=-eq-ok, ok_injective, ℕ, Text, [], none, some, ◌≡◌, refl, ap, ◌∙◌,
  Result, ok, inl, inr, Option-cases, Bool-cases, get_elem?, if◌then◌else◌,
}
use aom.Base.Dict.{lookup}
use aom.Floats.{Floats}
use aom.K8s.{Scales}
use aom.Basetype.{Metric, Model}
use aom.Collector.{Worker}
use aom.Gru.{Response}
use aom.Predictor.{Predictor}
use aom.Aomtype.{Hide, init}
use aom.Scheduler.{Answers, due, load, load_metric, find_pair, start_one}
use aom.Controller.{Aom, AomSpec, Ranges, IsRanges}
use aom.Controller.Models.Sharing.{AllLead, Source, last_of_key}
use aom.Controller.Handle.Through.{IsNew}
use aom.Controller.Handle.Sharing.{IsLeading, reconcile-IsLeading}
use aom.Controller.Handle.{Outside, Reconciled, reconcile, found}
use aom.Controller.Handle.{World, init_scaler, start_scheduler}
use aom.Controller.Handle.Frame.{IsKept, reconcile-keeps}
use aom.Controller.Handle.Alike.{
  run_metrics-IsAlike, run_models-IsAlike, run_collector-IsAlike, run_predictor-IsAlike,
}
use aom.System.{
  at_worker, at_predictor, collects, answers, scales, Step, reconciling, collecting, predicting,
  training, answering, scaling, Reach, started, stepped,
}

module _ {F : Floats} {K : Scales} where
  -- No training was recorded.
  abbrev IsUnrecorded : World F K → Type 0
  IsUnrecorded w = w.hide.train_history ≡ []

  IsUnrecorded-IsKept : (o : Ranges) → IsKept o IsUnrecorded
  unfolding init_scaler start_scheduler
  IsUnrecorded-IsKept o = record {
    by_aom = λ w aom h. h;
    by_promc = λ w p h. h;
    by_client = λ w c h. h;
    by_scaler = λ w h. h;
    by_scheduler = λ w h. h;
    by_metrics = λ w h. (run_metrics-IsAlike o w).history ∙ h;
    by_models = λ w h. (run_models-IsAlike o w).history ∙ h;
    by_collector = λ w h. (run_collector-IsAlike o w).history ∙ h;
    by_predictor = λ json changes w h. (run_predictor-IsAlike json o changes w).history ∙ h;
  }

  at_worker-IsUnrecorded :
      (p : ℕ) (f : Worker F → Worker F) (w : World F K)
      → IsUnrecorded w
      → IsUnrecorded (at_worker F K p f w)
  unfolding at_worker
  at_worker-IsUnrecorded p f w h = elim (Option-cases (get_elem? w.heap.workers p)) [
    | inl e ↦ rw (e, at_worker) h
    | inr (v, e) ↦ rw (e, at_worker) h
  ]

  at_predictor-IsUnrecorded :
      (key : Text) (f : Predictor F → Worker F → Worker F) (w : World F K)
      → IsUnrecorded w
      → IsUnrecorded (at_predictor F K key f w)
  unfolding at_predictor
  at_predictor-IsUnrecorded key f w h = elim (Option-cases (lookup key w.hide.predictor_map)) [
    | inl e ↦ rw (e, at_predictor) h
    | inr (p, e) ↦ rw (e, at_predictor) (at_worker-IsUnrecorded _ _ w h)
  ]

  answers-IsUnrecorded :
      (key : Text) (received : Result (Response F)) (w : World F K)
      → IsUnrecorded w
      → IsUnrecorded (answers F K key received w)
  unfolding answers
  answers-IsUnrecorded key received w h = elim (Option-cases (lookup key w.hide.predictor_map)) [
    | inl e ↦ rw (e, answers) h
    | inr (p, e) ↦ rw (e, answers) h
  ]

  Step-IsUnrecorded : {v w : World F K} → Step F K v w → IsUnrecorded v → IsUnrecorded w
  unfolding collects scales
  Step-IsUnrecorded (reconciling x f {w} law) h =
      reconcile-keeps IsUnrecorded x (IsUnrecorded-IsKept x.ranges) f w h
  Step-IsUnrecorded (collecting task answer {w}) h = at_worker-IsUnrecorded task.worker _ w h
  Step-IsUnrecorded (predicting key exchange {w}) h = at_predictor-IsUnrecorded key _ w h
  Step-IsUnrecorded (training key post {w}) h = at_predictor-IsUnrecorded key _ w h
  Step-IsUnrecorded (answering key received {w}) h = answers-IsUnrecorded key received w h
  Step-IsUnrecorded (scaling a {w}) h = h

  Reach-IsUnrecorded : {w : World F K} → Reach F K w → IsUnrecorded w
  unfolding init
  Reach-IsUnrecorded (started f) = ap (λ (h : Hide F). h.train_history) f.no_hide
  Reach-IsUnrecorded (stepped r s) = Step-IsUnrecorded s (Reach-IsUnrecorded r)

  -- In a reachable state a model is due in every round, whatever its interval for updates.
  start_one-found :
      (a : Answers F K) (wmk : Text) {w : World F K} {model : Model} {metric : Metric}
      → Reach F K w
      → find_pair F K wmk w.hide w.heap ≡ ok (model, metric)
      → start_one F K a wmk w.hide w.heap
        ≡ ok (
            some (record {
              with_model_key = wmk;
              metric = metric;
              trained = if model.need_train then some (a.train wmk) else none;
            }))
  unfolding start_one due lookup
  start_one-found a wmk {w} {model} r e =
      let never : lookup wmk w.hide.train_history ≡ none = ap (lookup wmk) (Reach-IsUnrecorded r) in
      elim (Bool-cases model.need_train) [
        | inl f ↦ rw (e, start_one, f, due, never) refl
        | inr f ↦ rw (e, start_one, f) refl
      ]

  -- The model that a lookup finds is the one that the pointer leads to.
  find_pair-leads :
      (spec : AomSpec) (wmk : Text) (w : World F K) {model : Model} {metric : Metric}
      → IsLeading spec w
      → find_pair F K wmk w.hide w.heap ≡ ok (model, metric)
      → (source : Source spec wmk) × (model ≡ last_of_key source)
  unfolding find_pair load AllLead
  find_pair-leads spec wmk w {model} {metric} lead e =
      let (found_model, f, e₁) = >>=-eq-ok (load F K wmk w.hide.model_map w.heap.models) _ e in
      let (_, _, e₂) = >>=-eq-ok (load_metric F K wmk w.hide w.heap) _ e₁ in
      let same_model = ap (λ (p : Model × Metric). p.0) (ok_injective e₂) in
      elim (Option-cases (lookup wmk w.hide.model_map)) [
        | inl g ↦ let missing = rw (g, load) at f in absurd cc
        | inr (p, g) ↦
            let (source, h) = lead wmk p g in
            let read = rw (g, h, load, or_panic) at f in
            (source, sym same_model ∙ sym (ok_injective read))
      ]

  -- From a reachable state with no stored model, a first successful `Reconcile` of a new generation
  -- leads to a state in which a round that finds the model and the metric of a key trains the
  -- predictor of that key exactly if the last model needs training in a list of the spec that has
  -- the key's model, whether the key's own model needs it or not. Neither the interval for updates
  -- nor an earlier training plays a part.
  pub start_one-trains :
      (a : Answers F K) (x : Outside F K) (aom : Aom) (wmk : Text) {w w' : World F K}
      {model : Model} {metric : Metric}
      → Reach F K w
      → w.hide.model_map ≡ []
      → IsRanges x.ranges
      → IsNew aom
      → reconcile F K x (found aom) w ≡ (record { requeue = false; result = ok tt }, w')
      → find_pair F K wmk w'.hide w'.heap ≡ ok (model, metric)
      → (source : Source aom.spec wmk) × (start_one F K a wmk w'.hide w'.heap
          ≡ ok (
              some (record {
                with_model_key = wmk;
                metric = metric;
                trained = if (last_of_key source).need_train then some (a.train wmk) else none;
              })))
  start_one-trains a x aom wmk {w} {w'} {model} {metric} r bare law n e f =
      let behind = ap (λ (q : Reconciled F K × World F K). q.1) e in
      let reached = subst (Reach F K) behind (stepped r (reconciling x (found aom) law)) in
      let lead = reconcile-IsLeading x aom w law bare n e in
      let (source, same_model) = find_pair-leads aom.spec wmk w' lead f in
      (
        source,
        start_one-found a wmk reached f
            ∙ ap
                (λ (m : Model). ok (
                  some (record {
                    with_model_key = wmk;
                    metric = metric;
                    trained = if m.need_train then some (a.train wmk) else none;
                  })))
                same_model,
      )
