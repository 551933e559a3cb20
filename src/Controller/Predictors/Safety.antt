-- ===== src/Controller/Predictors/Safety.antt =====
-- `handlePredictor` does not panic, and what it keeps however it ends.
use aom.Base.{
  ℕ, ◌<◌, Text, List, [], ◌∷◌, Result, ok, err, panic, ◌≡◌, ◌≢◌, refl, sym, ap, ◌∙◌, inl, inr,
  length, set, length-set, get_elem?_of_lt, Option-cases, Result-cases, arith,
}
use aom.Base.Dict.{Dict, lookup}
use aom.Base.Action.{Action, and_then}
use aom.Basetype.{Metric, Model, no_model_key}
use aom.Floats.{Floats}
use aom.Collector.{Worker}
use aom.Ptype.{Json, Param}
use aom.Predictor.{Predictor, new_predictor}
use aom.Predictor.Safety.{new_predictor-no_panic}
use aom.Utils.Keys.{get_no_model_key}
use aom.Utils.Keys.Laws.{get_no_model_key-returns}
use aom.Controller.{AomSpec, Ranges}
use aom.Controller.Metrics.Keys.{IsValid}
use aom.Controller.Predictors.Keys.{stored}
use aom.Controller.Predictors.{
  MdlMtrc, PredictorState, wmk_of, pairs, missing, put_predictor, add_predictors, change_predictor,
  change_predictors, update_predictors, handle_predictor,
}

pairs-no_panic : (metrics : Dict Metric) (d : Dict (List Model)) → pairs metrics d ≢ panic
unfolding pairs
pairs-no_panic metrics [] = λ h. cc
pairs-no_panic metrics ((key, models) ∷ rest) = elim (Option-cases (lookup key metrics)) [
  | inl e ↦ rw (e, pairs) (λ h. cc)
  | inr (metric, e) ↦ elim (Result-cases (pairs metrics rest)) [
    | inl (more, f) ↦ rw (e, f, pairs) (λ h. cc)
    | inr (inl (x, f)) ↦ rw (e, f, pairs) (λ h. cc)
    | inr (inr f) ↦ absurd (pairs-no_panic metrics rest f)
  ]
]

module _ (F : Floats) (d : Dict ℕ) (n : ℕ) where
  -- The map of workers is `d`, and there are `n` workers.
  pub record Linked (s : PredictorState F) : Type 0 where
    pub same_map : s.collector_worker_map ≡ d
    pub same_size : length s.workers ≡ n

  -- The call did not panic, and left the state so.
  pub record Safe {A : Type 0} (r : Result A × PredictorState F) : Type 0 where
    pub no_panic : r.0 ≢ panic
    pub linked : Linked r.1

  and_then-Safe :
      {A B : Type 0} (r : Result A × PredictorState F) (f : A → Action (PredictorState F) B)
      → Safe r
      → ((a : A) (s : PredictorState F) → Linked s → Safe (f a s))
      → Safe (and_then r f)
  and_then-Safe (ok a, s) f h k = k a s h.linked
  and_then-Safe (err e, s) f h k = record { no_panic = λ x. cc; linked = h.linked }
  and_then-Safe (panic, s) f h k = absurd (h.no_panic refl)

  -- The end of `put_predictor`.
  stored-Safe :
      (wmk : Text) (r : Result (Predictor F)) (s : PredictorState F) (workers : List (Worker F))
      → r ≢ panic
      → Linked (record s { workers = workers })
      → Safe (stored F wmk r s workers)
  stored-Safe wmk (ok pred) s workers h l = record {
    no_panic = λ x. cc;
    linked = record { same_map = l.same_map; same_size = l.same_size };
  }
  stored-Safe wmk (err e) s workers h l = record { no_panic = λ x. cc; linked = l }
  stored-Safe wmk panic s workers h l = absurd (h refl)

  module _ (v : IsValid n d) where
    pub put_predictor-Safe :
        (json : Json) (nmk wmk : Text) (model : Model) (s : PredictorState F)
        → Linked s
        → Safe (put_predictor F json nmk wmk model s)
    unfolding put_predictor
    put_predictor-Safe json nmk wmk model s l =
        elim (Option-cases (lookup nmk s.collector_worker_map)) [
          | inl e ↦ rw (e, put_predictor) (record { no_panic = λ x. cc; linked = l })
          | inr (at, e) ↦
              let below : at < n = v nmk at (ap (lookup nmk) (sym l.same_map) ∙ e) in
              let size = l.same_size in
              let (worker, f) = get_elem?_of_lt s.workers at (omega (arith, size, below)) in
              let param : Param = record {
                with_model_key = wmk;
                metric_collector = at;
                model = model.attr;
              } in
              let made = new_predictor F json param worker in
              rw (e, f, put_predictor)
                (stored-Safe wmk made.0 s (set s.workers at made.1)
                  (new_predictor-no_panic F json param worker)
                  (record {
                    same_map = l.same_map;
                    same_size = length-set s.workers at made.1 ∙ size;
                  }))
        ]

    pub add_predictors-Safe :
        (json : Json) (ps : List MdlMtrc) (s : PredictorState F)
        → Linked s
        → Safe (add_predictors F json ps s)
    unfolding add_predictors
    add_predictors-Safe json [] s l = record { no_panic = λ x. cc; linked = l }
    add_predictors-Safe json (p ∷ ps) s l =
        and_then-Safe (put_predictor F json (no_model_key p.metric) (wmk_of p) p.model s) _
          (put_predictor-Safe json (no_model_key p.metric) (wmk_of p) p.model s l)
          (λ _ t k. add_predictors-Safe json ps t k)

    change_predictor-Safe :
        (json : Json) (r : Result Text) (wmk : Text) (model : Model) (s : PredictorState F)
        → r ≢ panic
        → Linked s
        → Safe (change_predictor F json r wmk model s)
    unfolding change_predictor
    change_predictor-Safe json (ok nmk) wmk model s h l = put_predictor-Safe json nmk wmk model s l
    change_predictor-Safe json (err e) wmk model s h l = record { no_panic = λ x. cc; linked = l }
    change_predictor-Safe json panic wmk model s h l = absurd (h refl)

    pub change_predictors-Safe :
        (json : Json) (changes : Dict Model) (s : PredictorState F)
        → Linked s
        → Safe (change_predictors F json changes s)
    unfolding change_predictors
    change_predictors-Safe json [] s l = record { no_panic = λ x. cc; linked = l }
    change_predictors-Safe json ((wmk, model) ∷ rest) s l =
        let (nmk, e) = get_no_model_key-returns wmk in
        and_then-Safe (change_predictor F json (get_no_model_key wmk) wmk model s) _
          (change_predictor-Safe json (get_no_model_key wmk) wmk model s (λ h. cc) l)
          (λ _ t k. change_predictors-Safe json rest t k)

    pub handle_predictor-Safe :
        (json : Json) (o : Ranges) (spec : AomSpec) (changes : Dict Model) (s : PredictorState F)
        → Linked s
        → Safe (handle_predictor F json o spec changes s)
    unfolding handle_predictor update_predictors
    handle_predictor-Safe json o spec changes s l =
        and_then-Safe (pairs spec.metrics (o.models 1 spec.models), s) _
          (record { no_panic = pairs-no_panic spec.metrics (o.models 1 spec.models); linked = l })
          (λ wanted s₁ l₁.
            and_then-Safe (pairs spec.metrics (o.models 2 spec.models), s₁) _
              (record {
                no_panic = pairs-no_panic spec.metrics (o.models 2 spec.models);
                linked = l₁;
              })
              (λ again s₂ l₂.
                and_then-Safe (add_predictors F json (missing F wanted s₂.predictor_map) _) _
                  (add_predictors-Safe json (missing F wanted s₂.predictor_map) _
                    (record { same_map = l₂.same_map; same_size = l₂.same_size }))
                  (λ _ s₃ l₃. change_predictors-Safe json (o.changes changes) s₃ l₃)))

-- If every entry of the map of workers leads to a worker, `handlePredictor` does not panic,
-- whatever the spec, the changes and the orders of the ranges. The map of workers and the number of
-- workers stay, however it ends.
pub handle_predictor-no_panic :
    (F : Floats) (json : Json) (o : Ranges) (spec : AomSpec) (changes : Dict Model)
    (s : PredictorState F)
    → IsValid (length s.workers) s.collector_worker_map
    → let r = handle_predictor F json o spec changes s in
      (r.0 ≢ panic)
      × (r.1.collector_worker_map ≡ s.collector_worker_map)
      × (length r.1.workers ≡ length s.workers)
handle_predictor-no_panic F json o spec changes s v =
    let safe =
      handle_predictor-Safe F s.collector_worker_map (length s.workers) v json o spec changes s
        (record { same_map = refl; same_size = refl }) in
    (safe.no_panic, safe.linked.same_map, safe.linked.same_size)
