-- ===== src/Controller/Predictors/Returning.antt =====
-- When `handlePredictor` returns without an error.
use aom.Base.{
  ℕ, true, Text, List, [], ◌∷◌, ◌++◌, map, some, Result, ok, ◌≡◌, refl, ap, ◌∙◌, All, All-append,
  inl, inr, length, get_elem?_of_lt, Bool-cases, arith,
}
use aom.Base.Dict.{Dict, lookup, has, has-lookup, keys}
use aom.Base.Shuffle.{Shuffle-sym, Shuffle-All}
use aom.Base.Action.{and_then, and_then-ok}
use aom.Basetype.{Metric, Model, no_model_key, with_model_key}
use aom.Floats.{Floats}
use aom.Collector.{Worker}
use aom.Ptype.{Json}
use aom.Predictor.{Predictor, new_predictor}
use aom.Utils.Keys.{get_no_model_key}
use aom.Controller.{AomSpec, Ranges, IsRanges}
use aom.Controller.Metrics.{delete_loop}
use aom.Controller.Metrics.Keys.{IsValid}
use aom.Controller.Predictors.Safety.{Linked, put_predictor-Safe, add_predictors-Safe}
use aom.Controller.Predictors.{
  MdlMtrc, PredictorState, wmk_of, pairs, missing, put_predictor, add_predictors, change_predictor,
  change_predictors, update_predictors, handle_predictor,
}

module _ (F : Floats) (json : Json) (d : Dict ℕ) where
  -- There is a worker for the key without a model, and `NewPredictor` makes a predictor of the model.
  pub record Makes (nmk wmk : Text) (model : Model) : Type 0 where
    pub has_worker : has nmk d ≡ true
    pub made :
        (at : ℕ) (w : Worker F)
        → (p : Predictor F) × ((new_predictor F json
              (record { with_model_key = wmk; metric_collector = at; model = model.attr })
              w).0
            ≡ ok p)

  -- The key of the models has a metric, and each model makes a predictor for it.
  abbrev pub Fits : Dict Metric → Text × List Model → Type 0
  Fits metrics (k, models) =
      (metric : Metric) × (lookup k metrics ≡ some metric)
      × All (λ (m : Model). Makes (no_model_key metric) (with_model_key metric m.type) m) models

  -- A change makes a predictor for its key.
  abbrev pub FitsChange : Text × Model → Type 0
  FitsChange (wmk, model) = (nmk : Text) × (get_no_model_key wmk ≡ ok nmk) × Makes nmk wmk model

  abbrev FitsPair : MdlMtrc → Type 0
  FitsPair p = Makes (no_model_key p.metric) (wmk_of p) p.model

  with_metric :
      (metric : Metric) (models : List Model)
      → All (λ (m : Model). Makes (no_model_key metric) (with_model_key metric m.type) m) models
      → All FitsPair (map (λ m. record { model = m; metric = metric }) models)
  with_metric metric [] h = tt
  with_metric metric (m ∷ ms) (h, hs) = (h, with_metric metric ms hs)

  pairs-returns :
      (metrics : Dict Metric) (models : Dict (List Model))
      → All (Fits metrics) models
      → (ps : List MdlMtrc) × (pairs metrics models ≡ ok ps) × All FitsPair ps
  unfolding pairs
  pairs-returns metrics [] h = ([], refl, tt)
  pairs-returns metrics ((k, models) ∷ rest) ((metric, e, h), hs) =
      let (ps, f, all) = pairs-returns metrics rest hs in
      (
        map (λ m. record { model = m; metric = metric }) models ++ ps,
        rw (e, f, pairs) refl,
        All-append FitsPair (map (λ m. record { model = m; metric = metric }) models) ps
            (with_metric metric models h) all,
      )

  missing-All :
      (ps : List MdlMtrc) (made : Dict (Predictor F))
      → All FitsPair ps
      → All FitsPair (missing F ps made)
  unfolding missing
  missing-All [] made h = tt
  missing-All (p ∷ ps) made (h, hs) = elim (Bool-cases (has (wmk_of p) made)) [
    | inl e ↦ rw (e, missing) (missing-All ps made hs)
    | inr e ↦ rw (e, missing) (h, missing-All ps made hs)
  ]

  module _ (n : ℕ) (v : IsValid n d) where
    put_predictor-returns :
        (nmk wmk : Text) (model : Model) (s : PredictorState F)
        → Linked F d n s
        → Makes nmk wmk model
        → (put_predictor F json nmk wmk model s).0 ≡ ok tt
    unfolding put_predictor
    put_predictor-returns nmk wmk model s l h =
        let (at, e) = has-lookup nmk d h.has_worker in
        let here = ap (lookup nmk) l.same_map ∙ e in
        let below = v nmk at e in
        let size = l.same_size in
        let (worker, f) = get_elem?_of_lt s.workers at (omega (arith, size, below)) in
        let (p, g) = h.made at worker in rw (here, f, g, put_predictor) refl

    add_predictors-returns :
        (ps : List MdlMtrc) (s : PredictorState F)
        → Linked F d n s
        → All FitsPair ps
        → (add_predictors F json ps s).0 ≡ ok tt
    unfolding add_predictors
    add_predictors-returns [] s l h = refl
    add_predictors-returns (p ∷ ps) s l (h, hs) =
        let nmk = no_model_key p.metric in
        let call = put_predictor F json nmk (wmk_of p) p.model s in
        let next = (put_predictor-Safe F d n v json nmk (wmk_of p) p.model s l).linked in
        ap (λ (r : Result (Unit {0}) × PredictorState F). r.0)
          (and_then-ok call (λ _ s'. add_predictors F json ps s')
            (put_predictor-returns nmk (wmk_of p) p.model s l h))
        ∙ add_predictors-returns ps call.1 next hs

    change_predictors-returns :
        (changes : Dict Model) (s : PredictorState F)
        → Linked F d n s
        → All FitsChange changes
        → (change_predictors F json changes s).0 ≡ ok tt
    unfolding change_predictors change_predictor
    change_predictors-returns [] s l h = refl
    change_predictors-returns ((wmk, model) ∷ rest) s l ((nmk, e, h), hs) =
        let call = put_predictor F json nmk wmk model s in
        let next = (put_predictor-Safe F d n v json nmk wmk model s l).linked in
        let first : change_predictor F json (get_no_model_key wmk) wmk model s ≡ call =
          ap (λ r. change_predictor F json r wmk model s) e in
        ap
          (λ (c : Result (Unit {0}) × PredictorState F).
            (and_then c (λ _ s'. change_predictors F json rest s')).0)
          first
        ∙ (ap (λ (r : Result (Unit {0}) × PredictorState F). r.0)
              (and_then-ok call (λ _ s'. change_predictors F json rest s')
                (put_predictor-returns nmk wmk model s l h))
            ∙ change_predictors-returns rest call.1 next hs)

    update_predictors-returns :
        (o : Ranges) (changes : Dict Model) (wanted again : List MdlMtrc) (s : PredictorState F)
        → IsRanges o
        → Linked F d n s
        → All FitsPair wanted
        → All FitsChange changes
        → (update_predictors F json o changes wanted again s).0 ≡ ok tt
    unfolding update_predictors
    update_predictors-returns o changes wanted again s law l h k =
        let adds = missing F wanted s.predictor_map in
        let kept =
          delete_loop (map wmk_of again) (o.keys 3 (keys s.predictor_map)) s.predictor_map in
        let start : PredictorState F = record s { predictor_map = kept } in
        let linked : Linked F d n start = record {
          same_map = l.same_map;
          same_size = l.same_size;
        } in
        let call = add_predictors F json adds start in
        ap (λ (r : Result (Unit {0}) × PredictorState F). r.0)
          (and_then-ok call (λ _ s'. change_predictors F json (o.changes changes) s')
            (add_predictors-returns adds start linked (missing-All wanted s.predictor_map h)))
        ∙ change_predictors-returns (o.changes changes) call.1
            (add_predictors-Safe F d n v json adds start linked).linked
            (Shuffle-All FitsChange (Shuffle-sym (law.changes_all changes)) k)

-- If every key of the spec's models has a metric, every model and every change makes a predictor on
-- a worker that exists, and every entry of the map of workers leads to a worker, `handlePredictor`
-- returns without an error, in whatever order the ranges visit.
pub handle_predictor-returns :
    (F : Floats) (json : Json) (o : Ranges) (spec : AomSpec) (changes : Dict Model)
    (s : PredictorState F)
    → IsRanges o
    → IsValid (length s.workers) s.collector_worker_map
    → All (Fits F json s.collector_worker_map spec.metrics) spec.models
    → All (FitsChange F json s.collector_worker_map) changes
    → (handle_predictor F json o spec changes s).0 ≡ ok tt
unfolding handle_predictor
handle_predictor-returns F json o spec changes s law v h k =
    let d = s.collector_worker_map in
    let all = λ (i : ℕ).
      Shuffle-All (Fits F json d spec.metrics) (Shuffle-sym (law.models_all i spec.models)) h in
    let (wanted, e, fits) = pairs-returns F json d spec.metrics (o.models 1 spec.models) (all 1) in
    let (again, f, _) = pairs-returns F json d spec.metrics (o.models 2 spec.models) (all 2) in
    rw (e, f, handle_predictor)
      (update_predictors-returns F json d (length s.workers) v o changes wanted again s law
        (record { same_map = refl; same_size = refl }) fits k)
