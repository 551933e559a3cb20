-- ===== src/System/Pointers.antt =====
-- What holds in every state that the goroutines reach.
use aom.Base.{
  arith, length-set, ℕ, Text, List, [], ◌∷◌, Result, Option, none, some, ◌≢◌, sym, subst, panic,
  get_elem?, set, length, or_panic, bind-no_panic, Result-cases, Option-cases, inl, inr,
  get_elem?_of_lt,
}
use aom.Base.Dict.{Dict, lookup}
use aom.Floats.{Floats}
use aom.Gru.{Response}
use aom.K8s.{Scales}
use aom.Collector.{Worker}
use aom.Predictor.{Predictor, worker_of}
use aom.Aomtype.{Hide, init}
use aom.Utils.Keys.{get_no_model_key}
use aom.Utils.Keys.Laws.{get_no_model_key-returns}
use aom.Scheduler.{Answers, load, find_pair, start_one, start_all}
use aom.Controller.Metrics.Keys.{IsValid}
use aom.Controller.Handle.{World}
use aom.Controller.Handle.Sound.{IsSound}
use aom.Controller.Handle.Kept.{reconcile-IsSound}
use aom.System.{
  at_worker, at_predictor, collects, scales, Step, reconciling, collecting, predicting, training,
  answers, answering, scaling, IsFresh, Reach, started, stepped,
}

no_keys : (n : ℕ) → IsValid n []
unfolding lookup
no_keys n k p e = cc

load-no_panic :
    (F : Floats) (K : Scales) {A : Type 0} (key : Text) (d : Dict ℕ) (cells : List A)
    → IsValid (length cells) d
    → load F K key d cells ≢ panic
unfolding load
load-no_panic F K key d cells v = elim (Option-cases (lookup key d)) [
  | inl e ↦ rw (e, load) (λ h. cc)
  | inr (p, e) ↦
      let (x, f) = get_elem?_of_lt cells p (v key p e) in rw (e, f, load, or_panic) (λ h. cc)
]

module _ {F : Floats} {K : Scales} where
  at_worker-IsSound :
      (p : ℕ) (f : Worker F → Worker F) (w : World F K) → IsSound w → IsSound (at_worker F K p f w)
  unfolding at_worker
  at_worker-IsSound p f w h =
      elim (get_elem? w.heap.workers p)
        as (λ (o : Option (Worker F)). IsSound (elim o [
          | none ↦ w
          | some worker ↦ record w {
            heap = record w.heap { workers = set w.heap.workers p (f worker) };
          }
        ])) [
          | none ↦ h
          | some worker ↦ record {
            metric_cells = h.metric_cells;
            model_cells = h.model_cells;
            worker_cells = λ k q e.
                omega (arith, h.worker_cells k q e, length-set w.heap.workers p (f worker));
          }
        ]

  at_predictor-IsSound :
      (key : Text) (f : Predictor F → Worker F → Worker F) (w : World F K)
      → IsSound w
      → IsSound (at_predictor F K key f w)
  unfolding at_predictor
  at_predictor-IsSound key f w h =
      elim (lookup key w.hide.predictor_map)
        as (λ (o : Option (Predictor F)).
          IsSound (elim o [ none ↦ w | some p ↦ at_worker F K (worker_of F p) (f p) w ])) [
            | none ↦ h
            | some p ↦ at_worker-IsSound (worker_of F p) (f p) w h
          ]

  answers-IsSound :
      (key : Text) (received : Result (Response F)) (w : World F K)
      → IsSound w
      → IsSound (answers F K key received w)
  unfolding answers
  answers-IsSound key received w h = elim (Option-cases (lookup key w.hide.predictor_map)) [
    | inl e ↦ rw (e, answers) h
    | inr (p, e) ↦
        rw (e, answers)
          (record {
            metric_cells = h.metric_cells;
            model_cells = h.model_cells;
            worker_cells = h.worker_cells;
          })
  ]

  Step-IsSound : {v w : World F K} → Step F K v w → IsSound v → IsSound w
  unfolding collects scales
  Step-IsSound (reconciling x f {w} law) h = reconcile-IsSound x f w law h
  Step-IsSound (collecting task answer {w}) h = at_worker-IsSound task.worker _ w h
  Step-IsSound (predicting key exchange {w}) h = at_predictor-IsSound key _ w h
  Step-IsSound (training key post {w}) h = at_predictor-IsSound key _ w h
  Step-IsSound (answering key received {w}) h = answers-IsSound key received w h
  Step-IsSound (scaling a {w}) h = record {
    metric_cells = h.metric_cells;
    model_cells = h.model_cells;
    worker_cells = h.worker_cells;
  }

  IsFresh-IsSound : (w : World F K) → IsFresh F K w → IsSound w
  unfolding init
  IsFresh-IsSound w f = record {
    metric_cells =
        subst (λ (h : Hide F). IsValid (length w.heap.metrics) h.metric_map) (sym f.no_hide)
          (no_keys _);
    model_cells =
        subst (λ (h : Hide F). IsValid (length w.heap.models) h.model_map) (sym f.no_hide)
          (no_keys _);
    worker_cells =
        subst (λ (h : Hide F). IsValid (length w.heap.workers) h.collector_worker_map)
          (sym f.no_hide) (no_keys _);
  }

  -- In every state that the goroutines reach, in whatever order they take their steps and whatever
  -- the outside answers, every stored pointer to a metric, a model or a worker leads to a
  -- cell.
  pub Reach-IsSound : {w : World F K} → Reach F K w → IsSound w
  Reach-IsSound (started f) = IsFresh-IsSound _ f
  Reach-IsSound (stepped r s) = Step-IsSound s (Reach-IsSound r)

  find_pair-no_panic :
      (wmk : Text) (w : World F K) → IsSound w → find_pair F K wmk w.hide w.heap ≢ panic
  unfolding find_pair
  find_pair-no_panic wmk w h =
      let (nmk, e) = get_no_model_key-returns wmk in
      bind-no_panic _ _ (load-no_panic F K wmk w.hide.model_map w.heap.models h.model_cells)
        (λ model.
          bind-no_panic _ _
            (bind-no_panic (get_no_model_key wmk) _ (λ p. cc)
              (λ k. load-no_panic F K k w.hide.metric_map w.heap.metrics h.metric_cells))
            (λ metric p. cc))

  start_one-no_panic :
      (a : Answers F K) (wmk : Text) (w : World F K)
      → IsSound w
      → start_one F K a wmk w.hide w.heap ≢ panic
  unfolding start_one
  start_one-no_panic a wmk w h = elim (Result-cases (find_pair F K wmk w.hide w.heap)) [
    | inl (m, e) ↦ rw (e, start_one) (λ q. cc)
    | inr (inl (x, e)) ↦ rw (e, start_one) (λ q. cc)
    | inr (inr e) ↦ absurd (find_pair-no_panic wmk w h e)
  ]

  -- In every state that the goroutines reach, a round that looks up the models and the metrics of
  -- its predictors dereferences no pointer that leads nowhere, whatever the keys.
  pub start_all-no_panic :
      (a : Answers F K) (wmks : List Text) {w : World F K}
      → Reach F K w
      → start_all F K a wmks w.hide w.heap ≢ panic
  unfolding start_all
  start_all-no_panic a [] r = λ e. cc
  start_all-no_panic a (wmk ∷ wmks) {w} r =
      bind-no_panic _ _ (start_one-no_panic a wmk w (Reach-IsSound r))
        (λ s. bind-no_panic _ _ (start_all-no_panic a wmks r) (λ rest e. cc))
