-- ===== src/Controller/Predictors.antt =====
-- `handlePredictor`.
pub mod Wanted
pub mod Keys
pub mod Safety
pub mod Returning
pub mod Pointing
use aom.Base.{
  ℕ, Text, List, [], ◌∷◌, ◌++◌, map, none, some, Result, ok, err, panic, not_found_metric,
  value_not_found, if◌then◌else◌, get_elem?, set,
}
use aom.Base.Dict.{Dict, keys, lookup, insert, has}
use aom.Base.Action.{Action, and_then}
use aom.Basetype.{Metric, Model, no_model_key, with_model_key}
use aom.Floats.{Floats}
use aom.Collector.{Worker}
use aom.Ptype.{Json, Param}
use aom.Predictor.{Predictor, new_predictor}
use aom.Utils.Keys.{get_no_model_key}
use aom.Controller.{AomSpec, Ranges}
use aom.Controller.Metrics.{delete_loop}

-- `mdlMtrc`
pub record MdlMtrc : Type 0 where
  pub model : Model
  pub metric : Metric

abbrev pub wmk_of : MdlMtrc → Text
wmk_of p = with_model_key p.metric p.model.type

-- The models of a spec, each with the metric of its key. A key with no metric is an error.
unfoldable pub pairs : Dict Metric → Dict (List Model) → Result (List MdlMtrc)
pairs metrics [] = ok []
pairs metrics ((key, models) ∷ rest) = elim (lookup key metrics) [
  | none ↦ err not_found_metric
  | some metric ↦ elim (pairs metrics rest) [
    | ok more ↦ ok (map (λ m. record { model = m; metric = metric }) models ++ more)
    | err e ↦ err e
    | panic ↦ panic
  ]
]

module _ (F : Floats) where
  pub record PredictorState : Type 0 where
    pub workers : List (Worker F)
    pub collector_worker_map : Dict ℕ
    pub predictor_map : Dict (Predictor F)

  -- The pairs whose key has no predictor.
  unfoldable pub missing : List MdlMtrc → Dict (Predictor F) → List MdlMtrc
  missing [] d = []
  missing (p ∷ ps) d = let rest = missing ps d in if has (wmk_of p) d then rest else p ∷ rest

  -- Stores a new predictor for the key; its worker is found by the key without the model.
  unfoldable pub put_predictor : Json → Text → Text → Model → Action PredictorState (Unit {0})
  unfolding new_predictor
  put_predictor json nmk wmk model s = elim (lookup nmk s.collector_worker_map) [
    | none ↦ (err value_not_found, s)
    | some at ↦ elim (get_elem? s.workers at) [
      | none ↦ (panic, s)
      | some worker ↦
          let param : Param = record {
            with_model_key = wmk;
            metric_collector = at;
            model = model.attr;
          } in
          let (r, worker') = new_predictor F json param worker in
          let s' = record s { workers = set s.workers at worker' } in
          elim r [
            | ok pred ↦ (ok tt, record s' { predictor_map = insert wmk pred s.predictor_map })
            | err e ↦ (err e, s')
            | panic ↦ (panic, s')
          ]
    ]
  ]

  unfoldable pub add_predictors : Json → List MdlMtrc → Action PredictorState (Unit {0})
  unfolding put_predictor
  add_predictors json [] s = (ok tt, s)
  add_predictors json (p ∷ ps) s =
      and_then (put_predictor json (no_model_key p.metric) (wmk_of p) p.model s)
        (λ _ s'. add_predictors json ps s')

  unfoldable pub change_predictor :
      Json → Result Text → Text → Model → Action PredictorState (Unit {0})
  unfolding put_predictor
  change_predictor json (ok nmk) wmk model s = put_predictor json nmk wmk model s
  change_predictor json (err e) wmk model s = (err e, s)
  change_predictor json panic wmk model s = (panic, s)

  unfoldable pub change_predictors : Json → Dict Model → Action PredictorState (Unit {0})
  unfolding change_predictor get_no_model_key
  change_predictors json [] s = (ok tt, s)
  change_predictors json ((wmk, model) ∷ rest) s =
      and_then (change_predictor json (get_no_model_key wmk) wmk model s)
        (λ _ s'. change_predictors json rest s')

  -- The three loops that change the map: delete, add, renew.
  unfoldable pub update_predictors :
      Json → Ranges → Dict Model → List MdlMtrc → List MdlMtrc → Action PredictorState (Unit {0})
  unfolding missing delete_loop add_predictors change_predictors
  update_predictors json o change_map wanted again s =
      let adds = missing wanted s.predictor_map in
      let temp_map = map wmk_of again in
      let kept = delete_loop temp_map (o.keys 3 (keys s.predictor_map)) s.predictor_map in
      and_then (add_predictors json adds (record s { predictor_map = kept }))
        (λ _ s'. change_predictors json (o.changes change_map) s')

  -- The spec is read twice, in two orders.
  unfoldable pub handle_predictor :
      Json → Ranges → AomSpec → Dict Model → Action PredictorState (Unit {0})
  unfolding pairs update_predictors
  handle_predictor json o spec change_map s =
      and_then (pairs spec.metrics (o.models 1 spec.models), s)
        (λ wanted s₁.
          and_then (pairs spec.metrics (o.models 2 spec.models), s₁)
            (λ again s₂. update_predictors json o change_map wanted again s₂))
