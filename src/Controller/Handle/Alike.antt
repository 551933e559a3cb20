-- ===== src/Controller/Handle/Alike.antt =====
-- What a call of the handlers leaves as it was, and how a creation is an update.
use aom.Base.{List, Option, none, some, ◌≡◌, refl, ap, subst, ◌∙◌, Result, ok, err, panic}
use aom.Base.Dict.{Dict}
use aom.Base.Action.{and_then-ok, and_then-returns}
use aom.Basetype.{Model}
use aom.Floats.{Floats}
use aom.K8s.{Scales}
use aom.Collector
use aom.Collector.{Promc}
use aom.Ptype.{Json}
use aom.Aomtype.{Name}
use aom.Controller.{StatusCollector, Ranges}
use aom.Controller.Collectors.{handle_collector}
use aom.Controller.Handle.{
  Outside, World, run_metrics, run_models, run_collector, run_predictor, store_status,
  with_collectors, init_collector, set_address, init_scaler, start_scheduler, handle_create,
  handle_update,
}

module _ {F : Floats} {K : Scales} where
  -- The schedulers, their loops, the name and the spec of the instance and the times of its trainings
  -- are the same.
  pub record IsAlike (v w : World F K) : Type 0 where
    pub loops : w.loops ≡ v.loops
    pub schedulers : w.schedulers ≡ v.schedulers
    pub name : Path Name (w.aom.namespace, w.aom.name) (v.aom.namespace, v.aom.name)
    pub interval : w.aom.spec.interval ≡ v.aom.spec.interval
    pub spec : w.aom.spec ≡ v.aom.spec
    pub history : w.hide.train_history ≡ v.hide.train_history

  pub IsAlike-refl : (w : World F K) → IsAlike w w
  IsAlike-refl w = record {
    loops = refl;
    schedulers = refl;
    name = refl;
    interval = refl;
    spec = refl;
    history = refl;
  }

  pub IsAlike-trans : {u v w : World F K} → IsAlike u v → IsAlike v w → IsAlike u w
  IsAlike-trans p q = record {
    loops = q.loops ∙ p.loops;
    schedulers = q.schedulers ∙ p.schedulers;
    name = q.name ∙ p.name;
    interval = q.interval ∙ p.interval;
    spec = q.spec ∙ p.spec;
    history = q.history ∙ p.history;
  }

  init_collector-IsAlike : (w : World F K) → IsAlike w (init_collector F K w)
  unfolding init_collector
  init_collector-IsAlike w =
      elim w.p_collector
        as (λ (p : Option Promc).
          IsAlike w
            (elim p [ none ↦ record w { p_collector = some Collector.new } | some q ↦ w ])) [
              | none ↦ record {
                loops = refl;
                schedulers = refl;
                name = refl;
                interval = refl;
                spec = refl;
                history = refl;
              }
              | some p ↦ IsAlike-refl w
            ]

  set_address-IsAlike :
      (answer : Result (Unit {0})) (p : Option Promc) (w : World F K)
      → IsAlike w (set_address F K answer p w).1
  unfolding set_address
  set_address-IsAlike answer none w = IsAlike-refl w
  set_address-IsAlike answer (some p) w = record {
    loops = refl;
    schedulers = refl;
    name = refl;
    interval = refl;
    spec = refl;
    history = refl;
  }

  store_status-IsAlike :
      (r : Result (List StatusCollector)) (w : World F K) → IsAlike w (store_status F K r w).1
  unfolding store_status
  store_status-IsAlike (ok l) w = record {
    loops = refl;
    schedulers = refl;
    name = refl;
    interval = refl;
    spec = refl;
    history = refl;
  }
  store_status-IsAlike (err e) w = IsAlike-refl w
  store_status-IsAlike panic w = IsAlike-refl w

  pub run_metrics-IsAlike : (o : Ranges) (w : World F K) → IsAlike w (run_metrics F K o w).1
  unfolding run_metrics
  run_metrics-IsAlike o w = record {
    loops = refl;
    schedulers = refl;
    name = refl;
    interval = refl;
    spec = refl;
    history = refl;
  }

  pub run_models-IsAlike : (o : Ranges) (w : World F K) → IsAlike w (run_models F K o w).1
  unfolding run_models
  run_models-IsAlike o w = record {
    loops = refl;
    schedulers = refl;
    name = refl;
    interval = refl;
    spec = refl;
    history = refl;
  }

  pub run_collector-IsAlike : (o : Ranges) (w : World F K) → IsAlike w (run_collector F K o w).1
  unfolding run_collector
  run_collector-IsAlike o w =
      let call = handle_collector F o w.aom.spec (record {
        channels = w.heap.channels;
        workers = w.heap.workers;
        collector_map = w.hide.collector_map;
        collector_worker_map = w.hide.collector_worker_map;
        p_collector = w.p_collector;
        tasks = w.tasks;
      }) in
      IsAlike-trans
        (record {
          loops = refl;
          schedulers = refl;
          name = refl;
          interval = refl;
          spec = refl;
          history = refl;
        })
        (store_status-IsAlike call.0 (with_collectors F K w call.1))

  pub run_predictor-IsAlike :
      (json : Json) (o : Ranges) (changes : Dict Model) (w : World F K)
      → IsAlike w (run_predictor F K json o changes w).1
  unfolding run_predictor
  run_predictor-IsAlike json o changes w = record {
    loops = refl;
    schedulers = refl;
    name = refl;
    interval = refl;
    spec = refl;
    history = refl;
  }

  init_scaler-IsAlike : (w : World F K) → IsAlike w (init_scaler F K w)
  unfolding init_scaler
  init_scaler-IsAlike w = record {
    loops = refl;
    schedulers = refl;
    name = refl;
    interval = refl;
    spec = refl;
    history = refl;
  }

  -- An update that succeeds leaves these as they were.
  pub handle_update-IsAlike :
      (x : Outside F K) (w : World F K) {w' : World F K}
      → handle_update F K x w ≡ (ok tt, w')
      → IsAlike w w'
  unfolding handle_update
  handle_update-IsAlike x w e =
      let m = (run_metrics F K x.ranges w).1 in
      let n = (run_models F K x.ranges m).1 in
      let k = (run_collector F K x.ranges n).1 in
      let (_, _, e₁) = and_then-returns (run_metrics F K x.ranges w) _ e in
      let (changes, _, e₂) = and_then-returns (run_models F K x.ranges m) _ e₁ in
      let (_, _, e₃) = and_then-returns (run_collector F K x.ranges n) _ e₂ in
      subst (IsAlike w) (ap (λ (r : Result (Unit {0}) × World F K). r.1) e₃) (
        IsAlike-trans (run_metrics-IsAlike x.ranges w) (
          IsAlike-trans (run_models-IsAlike x.ranges m) (
            IsAlike-trans (run_collector-IsAlike x.ranges n)
              (run_predictor-IsAlike x.json x.ranges changes k))))

  -- The state in which a creation calls the four handlers.
  abbrev pub prepared : Outside F K → World F K → World F K
  prepared x w =
      let v = init_collector F K w in
      init_scaler F K (set_address F K x.api_new_client v.p_collector v).1

  pub prepared-IsAlike : (x : Outside F K) (w : World F K) → IsAlike w (prepared x w)
  prepared-IsAlike x w =
      let v = init_collector F K w in
      IsAlike-trans (init_collector-IsAlike w) (
        IsAlike-trans (set_address-IsAlike x.api_new_client v.p_collector v)
          (init_scaler-IsAlike (set_address F K x.api_new_client v.p_collector v).1))

  -- A creation that succeeds is an update of the state with its collector and its scaler, and then
  -- the start of the scheduler.
  pub handle_create-updates :
      (x : Outside F K) (w : World F K) {w' : World F K}
      → handle_create F K x w ≡ (ok tt, w')
      → (q : World F K) × (handle_update F K x (prepared x w) ≡ (ok tt, q))
        × (start_scheduler F K q ≡ w')
  unfolding handle_create handle_update
  handle_create-updates x w e =
      let v = init_collector F K w in
      let c = prepared x w in
      let m = (run_metrics F K x.ranges c).1 in
      let n = (run_models F K x.ranges m).1 in
      let k = (run_collector F K x.ranges n).1 in
      let (_, _, e₁) = and_then-returns (set_address F K x.api_new_client v.p_collector v) _ e in
      let (_, f₁, e₂) = and_then-returns (run_metrics F K x.ranges c) _ e₁ in
      let (changes, f₂, e₃) = and_then-returns (run_models F K x.ranges m) _ e₂ in
      let (_, f₃, e₄) = and_then-returns (run_collector F K x.ranges n) _ e₃ in
      let (_, f₄, e₅) = and_then-returns (run_predictor F K x.json x.ranges changes k) _ e₄ in
      let q = (run_predictor F K x.json x.ranges changes k).1 in
      (
        q,
        and_then-ok (run_metrics F K x.ranges c) _ f₁
            ∙ (and_then-ok (run_models F K x.ranges m) _ f₂
                ∙ (and_then-ok (run_collector F K x.ranges n) _ f₃
                    ∙ ap (λ (r : Result (Unit {0})). (r, q)) f₄)),
        ap (λ (r : Result (Unit {0}) × World F K). r.1) e₅,
      )
