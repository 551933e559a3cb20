-- ===== src/System/Holding.antt =====
-- The predictors in every state that the goroutines reach.
use aom.Base.{
  ℕ, Text, List, [], Result, ok, err, panic, sym, subst, inl, inr, length, set, length-set,
  get_elem?, Option-cases, Bool-cases, same, arith,
}
use aom.Base.Dict.{lookup}
use aom.Floats.{Floats}
use aom.K8s.{Scales}
use aom.Collector.{Worker}
use aom.Gru
use aom.Gru.{Response}
use aom.Predictor.{Predictor, gru, holt_winter, worker_of, key, get_type}
use aom.Aomtype.{Hide, init}
use aom.Controller.{StatusCollector, Ranges}
use aom.Controller.Collectors.{CollectorState, handle_collector}
use aom.Controller.Collectors.Workers.{handle_collector-HasMany}
use aom.Controller.Predictors.Pointing.{
  IsHeld, AllHeld, AllHeld-insert, AllHeld-mono, handle_predictor-Pointing,
}
use aom.Controller.Handle.{
  World, init_scaler, start_scheduler, run_metrics, run_models, run_collector, run_predictor,
  store_status, with_collectors,
}
use aom.Controller.Handle.Frame.{IsKept, reconcile-keeps}
use aom.System.{
  at_worker, at_predictor, updated, collects, answers, scales, Step, reconciling, collecting,
  predicting, training, answering, scaling, IsFresh, Reach, started, stepped,
}

updated-IsHeld :
    (F : Floats) (K : Scales) (n : ℕ) (wmk : Text) (received : Result (Response F))
    (p : Predictor F)
    → IsHeld F n wmk p
    → IsHeld F n wmk (updated F K received p)
unfolding updated Gru.wait_and_update key get_type
updated-IsHeld F K n wmk received (holt_winter p) h = h
updated-IsHeld F K n wmk (err e) (gru g) h = h
updated-IsHeld F K n wmk panic (gru g) h = h
updated-IsHeld F K n wmk (ok response) (gru g) h = elim (Bool-cases (same response.error [])) [
  | inl e ↦ rw (e) (record { below = h.below; named = h.named; typed = h.typed })
  | inr e ↦ rw (e) h
]

module _ {F : Floats} {K : Scales} where
  -- Every stored predictor calls a worker that exists, has the key it is stored under and is of the
  -- key's type.
  abbrev pub IsHolding : World F K → Type 0
  IsHolding w = AllHeld F (length w.heap.workers) w.hide.predictor_map

  store_status-IsHolding :
      (r : Result (List StatusCollector)) (w : World F K)
      → IsHolding w
      → IsHolding (store_status F K r w).1
  unfolding store_status
  store_status-IsHolding (ok l) w h = h
  store_status-IsHolding (err e) w h = h
  store_status-IsHolding panic w h = h

  run_collector-IsHolding :
      (o : Ranges) (w : World F K) → IsHolding w → IsHolding (run_collector F K o w).1
  unfolding run_collector
  run_collector-IsHolding o w h =
      let state : CollectorState F = record {
        channels = w.heap.channels;
        workers = w.heap.workers;
        collector_map = w.hide.collector_map;
        collector_worker_map = w.hide.collector_worker_map;
        p_collector = w.p_collector;
        tasks = w.tasks;
      } in
      let call = handle_collector F o w.aom.spec state in
      let more = handle_collector-HasMany F o w.aom.spec state in
      store_status-IsHolding call.0 (with_collectors F K w call.1) (
        AllHeld-mono F (length w.heap.workers) (length call.1.workers) w.hide.predictor_map
          (omega (arith, more)) h)

  IsHolding-IsKept : (o : Ranges) → IsKept o IsHolding
  unfolding init_scaler start_scheduler run_metrics run_models run_predictor
  IsHolding-IsKept o = record {
    by_aom = λ w aom h. h;
    by_promc = λ w p h. h;
    by_client = λ w c h. h;
    by_scaler = λ w h. h;
    by_scheduler = λ w h. h;
    by_metrics = λ w h. h;
    by_models = λ w h. h;
    by_collector = λ w h. run_collector-IsHolding o w h;
    by_predictor = λ json changes w h.
        handle_predictor-Pointing F json o w.aom.spec changes
          (record {
            workers = w.heap.workers;
            collector_worker_map = w.hide.collector_worker_map;
            predictor_map = w.hide.predictor_map;
          })
          h;
  }

  at_worker-IsHolding :
      (p : ℕ) (f : Worker F → Worker F) (w : World F K)
      → IsHolding w
      → IsHolding (at_worker F K p f w)
  unfolding at_worker
  at_worker-IsHolding p f w h = elim (Option-cases (get_elem? w.heap.workers p)) [
    | inl e ↦ rw (e, at_worker) h
    | inr (v, e) ↦
        let size = length-set w.heap.workers p (f v) in
        rw (e, at_worker)
          (AllHeld-mono F (length w.heap.workers) (length (set w.heap.workers p (f v)))
            w.hide.predictor_map (omega (arith, size)) h)
  ]

  at_predictor-IsHolding :
      (wmk : Text) (f : Predictor F → Worker F → Worker F) (w : World F K)
      → IsHolding w
      → IsHolding (at_predictor F K wmk f w)
  unfolding at_predictor
  at_predictor-IsHolding wmk f w h = elim (Option-cases (lookup wmk w.hide.predictor_map)) [
    | inl e ↦ rw (e, at_predictor) h
    | inr (p, e) ↦ rw (e, at_predictor) (at_worker-IsHolding (worker_of F p) (f p) w h)
  ]

  answers-IsHolding :
      (wmk : Text) (received : Result (Response F)) (w : World F K)
      → IsHolding w
      → IsHolding (answers F K wmk received w)
  unfolding answers
  answers-IsHolding wmk received w h = elim (Option-cases (lookup wmk w.hide.predictor_map)) [
    | inl e ↦ rw (e, answers) h
    | inr (p, e) ↦
        rw (e, answers)
          (AllHeld-insert F (length w.heap.workers) w.hide.predictor_map wmk
            (updated F K received p)
            (updated-IsHeld F K (length w.heap.workers) wmk received p (h wmk p e)) h)
  ]

  Step-IsHolding : {v w : World F K} → Step F K v w → IsHolding v → IsHolding w
  unfolding collects scales
  Step-IsHolding (reconciling x f {w} law) h =
      reconcile-keeps IsHolding x (IsHolding-IsKept x.ranges) f w h
  Step-IsHolding (collecting task answer {w}) h = at_worker-IsHolding task.worker _ w h
  Step-IsHolding (predicting key exchange {w}) h = at_predictor-IsHolding key _ w h
  Step-IsHolding (training key post {w}) h = at_predictor-IsHolding key _ w h
  Step-IsHolding (answering key received {w}) h = answers-IsHolding key received w h
  Step-IsHolding (scaling a {w}) h = h

  IsFresh-IsHolding : (w : World F K) → IsFresh F K w → IsHolding w
  unfolding init lookup
  IsFresh-IsHolding w f =
      subst (λ (h : Hide F). AllHeld F (length w.heap.workers) h.predictor_map) (sym f.no_hide)
        (λ wmk p e. cc)

  -- In every state that the goroutines reach, in whatever order they take their steps and whatever
  -- the outside answers, every stored predictor calls a worker that exists, has the key that it is
  -- stored under, and is of the type that stands at the end of the key.
  pub Reach-IsHolding : {w : World F K} → Reach F K w → IsHolding w
  Reach-IsHolding (started {w} f) = IsFresh-IsHolding w f
  Reach-IsHolding (stepped r s) = Step-IsHolding s (Reach-IsHolding r)
