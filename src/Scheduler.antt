-- ===== src/Scheduler.antt =====
-- scheduler/scheduler.go: one round of `Run`, from the predictions to the new replica count. The
-- predictions and trainings of a round run at the same time over shared workers; what each call
-- answers is an argument of the round, as is the order in which the results arrive.
pub mod Round
pub mod Single
pub mod Double
use aom.Base.{
  ℕ, Bool, true, false, Text, List, [], ◌∷◌, ◌++◌, map, Option, none, some, Error, Result, ok, err,
  panic, ◌>>=◌, value_not_found, no_sufficient_data, unready_to_predict, if◌then◌else◌, get_elem?,
  or_panic, not, ◌||◌,
}
use aom.Base.Int.{ℤ, pos, ◌+ℤ◌, ltb_ℤ, div_ℤ}
use aom.Base.Dict.{Dict, keys, lookup, insert}
use aom.Base.Shuffle.{Shuffle}
use aom.Base.Action.{Action}
use aom.Basetype.{Metric, Model}
use aom.Floats.{Floats}
use aom.K8s.{Scales, Client}
use aom.Ptype.{PredictResult}
use aom.Predictor.{Predictor}
use aom.Scaler.{Scaler, get_model_replica, get_metric_replica, get_scale_replica, up_to}
use aom.Scaler.Strategy.{under_threshold, max_strategy, select_max}
use aom.Utils.Keys.{get_no_model_key}
use aom.Utils.Slices.{mul_slice, add_slice}
use aom.Aomtype.{Hide, Heap}

pub record ResPair : Type 0 where
  pub model_replica : List ℤ
  pub with_model_key : Text

module _ (F : Floats) (K : Scales) where
  open F use {Float64, parse_float}

  -- What the round meets: the answers of `Predict` and `Train` by key, the time, the orders of its
  -- three ranges, and the order in which the results reach the channel.
  pub record Answers : Type 0 where
    pub predict : Text → Result (PredictResult F)
    pub train : Text → Result (Unit {0})
    pub now : ℤ
    pub range_predictors : Dict (Predictor F) → Dict (Predictor F)
    pub range_groups : Dict (List (List ℤ)) → Dict (List (List ℤ))
    pub range_metrics : Dict (List ℤ) → Dict (List ℤ)
    pub arrivals : List ResPair → List ResPair

  -- A range visits each entry once, and what is sent arrives once.
  pub record IsAnswers (a : Answers) : Type 0 where
    pub predictors_all : (d : Dict (Predictor F)) → Shuffle (a.range_predictors d) d
    pub groups_all : (d : Dict (List (List ℤ))) → Shuffle (a.range_groups d) d
    pub metrics_all : (d : Dict (List ℤ)) → Shuffle (a.range_metrics d) d
    pub arrivals_all : (l : List ResPair) → Shuffle (a.arrivals l) l

  -- `Load` and the dereference of the pointer that it finds.
  unfoldable pub load {ℓ} : {A : Type ℓ} → Text → Dict ℕ → List A → Result A
  load key d cells = elim (lookup key d) [
    | none ↦ err value_not_found
    | some ptr ↦ or_panic (get_elem? cells ptr)
  ]

  abbrev pub load_metric : Text → Hide F → Heap F → Result Metric
  load_metric wmk h heap = do nmk ← get_no_model_key wmk; load nmk h.metric_map heap.metrics

  -- The model and the metric of a predictor.
  unfoldable pub find_pair : Text → Hide F → Heap F → Result (Model × Metric)
  unfolding load get_no_model_key
  find_pair wmk h heap = do
    model ← load wmk h.model_map heap.models
    metric ← load_metric wmk h heap
    ok (model, metric)

  -- What a goroutine sends on the channel, if anything: an error ends it with a log line.
  abbrev keep : Text → Result (List ℤ) → Result (Option ResPair)
  keep wmk (ok r) = ok (some (record { model_replica = r; with_model_key = wmk }))
  keep wmk (err e) = ok none
  keep wmk panic = panic

  abbrev deref : Option Scaler → Result Scaler
  deref none = panic
  deref (some s) = ok s

  abbrev after_predict :
      Client K → Option Scaler → Text → Metric → PredictResult F → Result (Option ResPair)
  after_predict c scr wmk metric p = elim (parse_float metric.target) [
    | none ↦ ok none
    | some target_val ↦ do
      s ← deref scr
      keep wmk
          (get_model_replica F K s p.predict_metric p.start_metric (under_threshold F) target_val c)
  ]

  unfoldable pub goroutine :
      Answers → Client K → Option Scaler → Text → Metric → Result (Option ResPair)
  unfolding get_model_replica under_threshold
  goroutine a c scr wmk metric = elim (a.predict wmk) [
    | ok p ↦ after_predict c scr wmk metric p
    | err e ↦ ok none
    | panic ↦ panic
  ]

  -- Whether the model is due: it was never trained, or longer ago than its interval.
  unfoldable pub due : Text → Model → Hide F → ℤ → Bool
  due wmk model h now = elim (lookup wmk h.train_history) [
    | none ↦ true
    | some last_time ↦ ltb_ℤ (last_time +ℤ model.update_interval) now
  ]

  -- What one round of the loop over the predictors starts: a goroutine, and perhaps a training.
  pub record Started : Type 0 where
    pub with_model_key : Text
    pub metric : Metric
    pub trained : Option (Result (Unit {0}))

  unfoldable pub start_one : Answers → Text → Hide F → Heap F → Result (Option Started)
  unfolding find_pair due
  start_one a wmk h heap = elim (find_pair wmk h heap) [
    | err e ↦ ok none
    | panic ↦ panic
    | ok (model, metric) ↦
        let trained : Option (Result (Unit {0})) =
          if model.need_train
          then (if due wmk model h a.now then some (a.train wmk) else none)
          else none in
        ok (some (record { with_model_key = wmk; metric = metric; trained = trained }))
  ]

  abbrev cons_some {ℓ} : {A : Type ℓ} → Option A → List A → List A
  cons_some none l = l
  cons_some (some x) l = x ∷ l

  unfoldable pub start_all : Answers → List Text → Hide F → Heap F → Result (List Started)
  unfolding start_one
  start_all a [] h heap = ok []
  start_all a (wmk ∷ wmks) h heap = do
    s ← start_one a wmk h heap
    rest ← start_all a wmks h heap
    ok (cons_some s rest)

  -- The results that the goroutines send.
  unfoldable pub results : Answers → Client K → Option Scaler → List Started → Result (List ResPair)
  unfolding goroutine
  results a c scr [] = ok []
  results a c scr (s ∷ ss) = do
    r ← goroutine a c scr s.with_model_key s.metric
    rest ← results a c scr ss
    ok (cons_some r rest)

  -- The replicas of the models of each metric.
  unfoldable pub group : List ResPair → Dict (List (List ℤ)) → Result (Dict (List (List ℤ)))
  unfolding get_no_model_key
  group [] d = ok d
  group (pair ∷ pairs) d = do
    nmk ← get_no_model_key pair.with_model_key
    group pairs (elim (lookup nmk d) [
      | none ↦ insert nmk (pair.model_replica ∷ []) d
      | some rows ↦ insert nmk (rows ++ pair.model_replica ∷ []) d
    ])

  unfoldable pub merge : Dict (List (List ℤ)) → Dict (List ℤ) → Result (Dict (List ℤ))
  unfolding get_metric_replica max_strategy
  merge [] d = ok d
  merge ((nmk, rows) ∷ groups) d = do
    r ← get_metric_replica rows max_strategy
    merge groups (insert nmk r d)

  -- The rows times the weights of their metrics. A metric that is gone is passed over.
  unfoldable pub weigh : Dict (List ℤ) → Hide F → Heap F → Result (List (List ℤ))
  unfolding load mul_slice
  weigh [] h heap = ok []
  weigh ((nmk, r) ∷ rest) h heap = elim (load nmk h.metric_map heap.metrics) [
    | panic ↦ panic
    | err e ↦ weigh rest h heap
    | ok metric ↦ do more ← weigh rest h heap; ok (mul_slice metric.weight r ∷ more)
  ]

  -- The count that the round asks for, times 100; none if there is no result.
  unfoldable pub decide_from : Answers → List ResPair → Hide F → Heap F → Result (Option ℤ)
  unfolding group merge weigh add_slice get_scale_replica select_max
  decide_from a [] h heap = ok none
  decide_from a (p ∷ ps) h heap = do
    groups ← group (p ∷ ps) []
    merged ← merge (a.range_groups groups) []
    m_replicas ← weigh (a.range_metrics merged) h heap
    obj_set ← add_slice m_replicas
    target ← get_scale_replica obj_set select_max
    ok (some target)

  unfoldable pub decide : Answers → Client K → Hide F → Heap F → Result (Option ℤ)
  unfolding start_all results decide_from
  decide a c h heap = do
    started ← start_all a (keys (a.range_predictors h.predictor_map)) h heap
    sent ← results a c h.scaler started
    decide_from a (a.arrivals sent) h heap

  -- The error of `UpTo` is logged.
  abbrev pub logged : Result (Unit {0}) × Client K → Result (Unit {0}) × Client K
  logged (ok _, c) = (ok tt, c)
  logged (err e, c) = (ok tt, c)
  logged (panic, c) = (panic, c)

  unfoldable pub scale : Option Scaler → Result (Option ℤ) → Action (Client K) (Unit {0})
  unfolding up_to
  scale scr (err e) c = (err e, c)
  scale scr panic c = (panic, c)
  scale scr (ok none) c = (ok tt, c)
  scale none (ok (some target)) c = (panic, c)
  scale (some s) (ok (some target)) c = logged (up_to K s (div_ℤ target 100) c)

  -- One round of the loop of `Run`.
  unfoldable pub run_round : Answers → Hide F → Heap F → Action (Client K) (Unit {0})
  unfolding decide scale
  run_round a h heap c = scale h.scaler (decide a c h heap) c
