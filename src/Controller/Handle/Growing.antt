-- ===== src/Controller/Handle/Growing.antt =====
-- A sequence of specs of one instance in which no metric is taken away.
use aom.Base.{false, Text, List, some, ◌≡◌, sym, ap, subst, Result, ok, err, panic, inl, inr}
use aom.Base.Int.{pos, eqb_ℤ}
use aom.Base.Dict.{has, mem}
use aom.Base.Action.{and_then-returns}
use aom.Floats.{Floats}
use aom.K8s.{Scales}
use aom.Collector.{Promc}
use aom.Controller.{Aom, AomSpec, StatusCollector, Ranges, IsRanges}
use aom.Controller.Metrics.Keys.{spec_keys}
use aom.Controller.Collectors.{CollectorState, handle_collector}
use aom.Controller.Collectors.Adding.{handle_collector-starts}
use aom.Controller.Collectors.Workers.{handle_collector-HasPromc}
use aom.Controller.Handle.{
  Outside, World, start_scheduler, handle_update, run_metrics, run_models, run_collector,
  run_predictor, store_status, with_collectors, set_generation, Reconciled, reconcile, found,
}
use aom.Controller.Handle.Sound.{run_metrics-IsSound, run_models-IsSound}
use aom.Controller.Handle.Kept.{IsSound-IsKept}
use aom.Controller.Handle.Complete.{IsComplete}
use aom.Controller.Handle.Through.{IsNew, IsLeft, reconcile-leaves}
use aom.Controller.Handle.Done.{IsDone}
use aom.Controller.Handle.Opened.{IsOpen, HasCollector, prepared-IsSetUp, prepared-IsOpen}
use aom.Controller.Handle.Succeeding.{IsAnswering, reconcile-succeeds}

module _ {F : Floats} {K : Scales} where
  -- The collector is there, and the keys with a channel and those with a worker are those of the
  -- spec's metrics.
  pub record IsRunning (spec : AomSpec) (w : World F K) : Type 0 where
    pub collector : (p : Promc) × (w.p_collector ≡ some p)
    pub channels : (j : Text) → has j w.hide.collector_map ≡ mem j (spec_keys spec)
    pub workers : (j : Text) → has j w.hide.collector_worker_map ≡ mem j (spec_keys spec)

  store_status-IsRunning :
      (spec : AomSpec) (r : Result (List StatusCollector)) (w : World F K)
      → IsRunning spec w
      → IsRunning spec (store_status F K r w).1
  unfolding store_status
  store_status-IsRunning spec (ok l) w h = record {
    collector = h.collector;
    channels = h.channels;
    workers = h.workers;
  }
  store_status-IsRunning spec (err e) w h = h
  store_status-IsRunning spec panic w h = h

  -- What `handle_update` needs for it.
  record IsReady (w : World F K) : Type 0 where
    opened : IsOpen w.aom.spec w
    collector : (p : Promc) × (w.p_collector ≡ some p)

  run_collector-IsRunning :
      (o : Ranges) (w : World F K)
      → IsRanges o
      → IsReady w
      → IsRunning w.aom.spec (run_collector F K o w).1
  unfolding run_collector
  run_collector-IsRunning o w law h =
      let state : CollectorState F = record {
        channels = w.heap.channels;
        workers = w.heap.workers;
        collector_map = w.hide.collector_map;
        collector_worker_map = w.hide.collector_worker_map;
        p_collector = w.p_collector;
        tasks = w.tasks;
      } in
      let (_, channels, workers, _, _, _) =
        handle_collector-starts F o w.aom.spec state law h.collector.1 h.opened.inside
          h.opened.workers in
      let call = handle_collector F o w.aom.spec state in
      store_status-IsRunning w.aom.spec call.0 (with_collectors F K w call.1) (record {
        collector = handle_collector-HasPromc F o w.aom.spec state h.collector;
        channels = channels;
        workers = workers;
      })

  handle_update-IsRunning :
      (x : Outside F K) (w : World F K) {w' : World F K}
      → IsRanges x.ranges
      → IsReady w
      → handle_update F K x w ≡ (ok tt, w')
      → IsRunning w.aom.spec w'
  unfolding handle_update run_metrics run_models run_predictor
  handle_update-IsRunning x w law h e =
      let o = x.ranges in
      let a = (run_metrics F K o w).1 in
      let b = (run_models F K o a).1 in
      let k = (run_collector F K o b).1 in
      let (_, _, e₁) = and_then-returns (run_metrics F K o w) _ e in
      let (_, _, e₂) = and_then-returns (run_models F K o a) _ e₁ in
      let (_, _, e₃) = and_then-returns (run_collector F K o b) _ e₂ in
      let ready : IsReady b = record {
        opened = record {
          sound = run_models-IsSound o a law (run_metrics-IsSound o w law h.opened.sound);
          inside = h.opened.inside;
          workers = h.opened.workers;
        };
        collector = h.collector;
      } in
      let running = run_collector-IsRunning o b law ready in
      subst (IsRunning w.aom.spec) (ap (λ (r : Result (Unit {0}) × World F K). r.1) e₃) (record {
        collector = running.collector;
        channels = running.channels;
        workers = running.workers;
      })

  -- What `Reconcile` needs for it.
  IsBefore : World F K → Type 0
  IsBefore w = IsOpen w.aom.spec w × HasCollector w.aom w

  has_collector :
      (w : World F K)
      → eqb_ℤ w.aom.status.generation (pos 0) ≡ false
      → HasCollector w.aom w
      → (p : Promc) × (w.p_collector ≡ some p)
  has_collector w later (inl first) = cc
  has_collector w later (inr made) = made

  IsRunning-IsLeft : (x : Outside F K) → IsRanges x.ranges → IsLeft x IsBefore IsReady IsRunning
  unfolding IsBefore start_scheduler set_generation
  IsRunning-IsLeft x law = record {
    by_client = λ w c h. (
      record {
        sound = (IsSound-IsKept x.ranges law).by_client w c h.0.sound;
        inside = h.0.inside;
        workers = h.0.workers;
      },
      h.1,
    );
    by_prepared = λ w h. record {
      opened = prepared-IsOpen x w law h.0;
      collector = (prepared-IsSetUp x w).collector;
    };
    by_older = λ w later h. record { opened = h.0; collector = has_collector w later h.1 };
    by_update = λ w h e. handle_update-IsRunning x w law h e;
    by_scheduler =
        λ spec w h. record { collector = h.collector; channels = h.channels; workers = h.workers };
    by_generation =
        λ spec w h. record { collector = h.collector; channels = h.channels; workers = h.workers };
  }

  -- A call that succeeds, leaves the maps in step with its spec, and leaves the collectors running.
  pub record IsServed (x : Outside F K) (aom : Aom) (w : World F K) : Type 0 where
    pub call : (reconcile F K x (found aom) w).0 ≡ record { requeue = false; result = ok tt }
    pub done : IsDone aom.spec (reconcile F K x (found aom) w).1
    pub running : IsRunning aom.spec (reconcile F K x (found aom) w).1

  -- What a call needs of the instance and of the outside.
  pub record IsServable (x : Outside F K) (aom : Aom) (w : World F K) : Type 0 where
    pub ranges : IsRanges x.ranges
    pub new : IsNew aom
    pub answering : IsAnswering x w
    pub complete : IsComplete F x.json aom.spec

  pub reconcile-IsServed :
      (x : Outside F K) (aom : Aom) (w : World F K)
      → IsServable x aom w
      → IsOpen aom.spec w
      → HasCollector aom w
      → IsServed x aom w
  unfolding IsBefore
  reconcile-IsServed x aom w s h p =
      let (w', e, done) = reconcile-succeeds x aom w s.ranges s.new s.answering h p s.complete in
      let opened : IsOpen aom.spec (record w { aom = aom }) = record {
        sound = (IsSound-IsKept x.ranges s.ranges).by_aom w aom h.sound;
        inside = h.inside;
        workers = h.workers;
      } in
      let running = reconcile-leaves x (IsRunning-IsLeft x s.ranges) aom w (opened, p) s.new e in
      let behind = ap (λ (r : Reconciled F K × World F K). r.1) e in
      record {
        call = ap (λ (r : Reconciled F K × World F K). r.0) e;
        done = subst (IsDone aom.spec) (sym behind) done;
        running = subst (IsRunning aom.spec) (sym behind) running;
      }
