-- ===== src/Controller/Collectors/Frame.antt =====
-- What is kept by the steps of `handleCollector` is kept by the call.
use aom.Base.{
  ℕ, true, Text, List, [], ◌∷◌, some, Result, ok, err, panic, inl, inr, set, Option-cases,
}
use aom.Base.Dict.{lookup, erase}
use aom.Base.Action.{and_then-keeps}
use aom.Basetype.{Metric, no_model_key}
use aom.Floats.{Floats}
use aom.Collector.{Promc, Worker, create_worker, add_custom_metrics}
use aom.Controller.{AomSpec, Ranges, metric_values}
use aom.Controller.Collectors.{
  CollectorState, to_add, delete_workers, start_worker, add_worker, add_workers, handle_collector,
}
use aom.Controller.Collectors.Stale.{close-cases, deletes}

module _ (F : Floats) where
  pub record IsKept (P : CollectorState F → Type 0) : Type 0 where
    -- A channel is closed and a key's worker is forgotten.
    pub by_delete :
        (key : Text) (ch : ℕ) (s : CollectorState F)
        → P s
        → P (record s {
          channels = set s.channels ch true;
          collector_worker_map = erase key s.collector_worker_map;
        })
    -- A query is added to the collector.
    pub by_promc : (p : Promc) (s : CollectorState F) → P s → P (record s { p_collector = some p })
    -- A worker is stored under the key, with a fresh channel.
    pub by_start :
        (key : Text) (w : Worker F) (s : CollectorState F) → P s → P (start_worker F key (ok w) s).1

  module _ (P : CollectorState F → Type 0) (k : IsKept P) where
    delete_workers-keeps :
        (vs : List Text) (s : CollectorState F) → P s → P (delete_workers F vs s).1
    unfolding delete_workers
    delete_workers-keeps [] s h = h
    delete_workers-keeps (v ∷ vs) s h = elim (Option-cases (lookup v s.collector_map)) [
      | inl e ↦ rw (e, delete_workers) h
      | inr (ch, e) ↦ elim (close-cases F ch s) [
        | inl f ↦ rw (e, f, delete_workers) h
        | inr (f, open_) ↦
            rw (e, f, delete_workers) (delete_workers-keeps vs _ (k.by_delete v ch s h))
      ]
    ]

    start_worker-keeps :
        (key : Text) (r : Result (Worker F)) (s : CollectorState F)
        → P s
        → P (start_worker F key r s).1
    unfolding start_worker
    start_worker-keeps key (err e) s h = h
    start_worker-keeps key panic s h = h
    start_worker-keeps key (ok worker) s h = k.by_start key worker s h

    add_workers-keeps : (ms : List Metric) (s : CollectorState F) → P s → P (add_workers F ms s).1
    unfolding add_workers add_worker
    add_workers-keeps [] s h = h
    add_workers-keeps (m ∷ ms) s h =
        let one : P (add_worker F m s).1 = elim (Option-cases s.p_collector) [
          | inl e ↦ rw (e, add_worker) h
          | inr (p, e) ↦
              let p' = add_custom_metrics m p in
              rw (e, add_worker)
                (start_worker-keeps (no_model_key m) (create_worker F m p')
                  (record s { p_collector = some p' }) (k.by_promc p' s h))
        ] in
        and_then-keeps P (add_worker F m s) _ one (λ _ t l. add_workers-keeps ms t l)

    pub handle_collector-keeps :
        (o : Ranges) (spec : AomSpec) (s : CollectorState F)
        → P s
        → P (handle_collector F o spec s).1
    unfolding handle_collector
    handle_collector-keeps o spec s h =
        and_then-keeps P (delete_workers F (deletes F o spec s) s) _
          (delete_workers-keeps (deletes F o spec s) s h)
          (λ _ t l.
            and_then-keeps P
              (add_workers F (to_add F (metric_values (o.metrics 3 spec.metrics)) s.collector_map)
                t)
              _ (add_workers-keeps _ t l) (λ _ u m. m))
