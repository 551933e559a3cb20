-- ===== src/Controller/Collectors/Adding.antt =====
-- The workers that `handleCollector` starts.
use aom.Base.{
  if◌then◌else◌, ℕ, true, Text, List, [], ◌∷◌, ◌++◌, map, some, Result, ok, ◌≡◌, inl, inr, refl,
  sym, ap, ◌∙◌, same, same_eq, length, arith, Bool-cases, append_assoc, map-append, append-nil,
  same_refl,
}
use aom.Base.Dict.{Dict, keys, mem, has, has-insert, mem-keys}
use aom.Base.Shuffle.{count, Shuffle-count, Shuffle-map, Shuffle-mem}
use aom.Base.Action.{and_then-ok}
use aom.Basetype.{Metric, no_model_key, Metric-discrete}
use aom.Floats.{Floats}
use aom.Collector.{Promc, Worker, find_query, put_query, add_custom_metrics, create_worker}
use aom.Controller.{AomSpec, Ranges, IsRanges, metric_values}
use aom.Controller.Metrics.Keys.{spec_keys, range_keys}
use aom.Controller.Collectors.{
  WorkerTask, CollectorState, to_add, to_delete, delete_workers, start_worker, add_worker,
  add_workers, handle_collector,
}

find_query-put_query :
    (m : Metric) (q : Text) (ql : List (Metric × Text)) → find_query m (put_query m q ql) ≡ some q
unfolding find_query put_query
find_query-put_query m q [] = ground arith
find_query-put_query m q ((n, r) ∷ ql) = elim (Metric-discrete m n) [
  | yes e ↦ ground arith
  | no e ↦ ground (arith, find_query-put_query m q ql)
]

module _ (F : Floats) where
  -- A metric that was added to the collector gets a worker.
  create_worker-returns :
      (m : Metric) (p : Promc)
      → (w : Worker F) × (create_worker F m (add_custom_metrics m p) ≡ ok w)
  unfolding create_worker add_custom_metrics
  create_worker-returns m p =
      let w : Worker F = record {
        name = m.name;
        unit = m.unit;
        promql = m.query;
        samples = [];
        client = p.client;
      } in
      (w, rw (find_query-put_query m m.query p.metric_ql, create_worker) refl)

  -- What the loop over the metrics with the keys `ks` does.
  pub record Added (s : CollectorState F) (ks : List Text)
      (r : Result (Unit {0}) × CollectorState F) : Type 0 where
    pub returns : r.0 ≡ ok tt
    pub map_keys :
        (j : Text) → has j r.1.collector_map ≡ (if mem j ks then true else has j s.collector_map)
    pub worker_keys :
        (j : Text)
        → has j r.1.collector_worker_map ≡ (if mem j ks then true else has j s.collector_worker_map)
    pub started_tasks :
        map (λ (t : WorkerTask). t.key) r.1.tasks ≡ map (λ (t : WorkerTask). t.key) s.tasks ++ ks

  -- The state behind a round of the loop.
  abbrev started : Metric → Promc → Worker F → CollectorState F → CollectorState F
  started m p w s = (start_worker F (no_model_key m) (ok w) (record s { p_collector = some p })).1

  add_worker-eq :
      (m : Metric) (s : CollectorState F) {p : Promc}
      → s.p_collector ≡ some p
      → (w : Worker F) × (add_worker F m s ≡ (ok tt, started m (add_custom_metrics m p) w s))
  unfolding add_worker start_worker
  add_worker-eq m s {p} e =
      let (w, f) = create_worker-returns m p in (w, rw (e, f, add_worker, start_worker) refl)

  pub add_workers-Added :
      (ms : List Metric) (s : CollectorState F) {p : Promc}
      → s.p_collector ≡ some p
      → Added s (map no_model_key ms) (add_workers F ms s)
  unfolding add_workers mem start_worker
  add_workers-Added [] s e = record {
    returns = refl;
    map_keys = λ j. refl;
    worker_keys = λ j. refl;
    started_tasks = sym (append-nil _);
  }
  add_workers-Added (m ∷ ms) s {p} e =
      let (w, f) = add_worker-eq m s e in
      let key = no_model_key m in
      let t = started m (add_custom_metrics m p) w s in
      let rest = add_workers-Added ms t refl in
      rw (f, add_workers)
        (record {
          returns = rest.returns;
          map_keys = λ j.
              ground (arith, rest.map_keys j, has-insert j key (length s.channels) s.collector_map);
          worker_keys = λ j. ground (
            arith,
            rest.worker_keys j,
            has-insert j key (length s.workers) s.collector_worker_map,
          );
          started_tasks =
              rest.started_tasks
              ∙ (ap (λ l. l ++ map no_model_key ms)
                    (map-append (λ (u : WorkerTask). u.key) s.tasks _)
                  ∙ append_assoc (map (λ (u : WorkerTask). u.key) s.tasks) (key ∷ [])
                      (map no_model_key ms));
        })

  pub mem-to_add :
      (j : Text) (ms : List Metric) (d : Dict ℕ)
      → (if mem j (map no_model_key (to_add F ms d)) then true else has j d)
        ≡ (if mem j (map no_model_key ms) then true else has j d)
  unfolding to_add mem
  mem-to_add j [] d = refl
  mem-to_add j (m ∷ ms) d = elim (Bool-cases (same j (no_model_key m))) [
    | inl e ↦
        let one = same_eq j (no_model_key m) e in
        let there = ap (λ k. has k d) one in ground (arith, mem-to_add j ms d, there)
    | inr e ↦ ground (arith, mem-to_add j ms d)
  ]

  -- A metric is added as often as the list has its key, if there is no channel, and else not at all.
  count-to_add :
      (j : Text) (ms : List Metric) (d : Dict ℕ)
      → count j (map no_model_key (to_add F ms d))
        ≡ (if has j d then 0 else count j (map no_model_key ms))
  unfolding to_add count
  count-to_add j [] d = ground arith
  count-to_add j (m ∷ ms) d = elim (Bool-cases (same j (no_model_key m))) [
    | inl e ↦
        let there = ap (λ k. has k d) (same_eq j (no_model_key m) e) in
        ground (arith, count-to_add j ms d, there)
    | inr e ↦ ground (arith, count-to_add j ms d)
  ]

  to_delete-none :
      (spec_keys ks : List Text)
      → ((j : Text) → mem j ks ≡ true → mem j spec_keys ≡ true)
      → to_delete F spec_keys ks ≡ []
  unfolding to_delete mem
  to_delete-none spec_keys [] h = refl
  to_delete-none spec_keys (k ∷ ks) h =
      let here : mem k spec_keys ≡ true = h k (rw (same_refl k) refl) in
      rw (here, to_delete) (to_delete-none spec_keys ks (λ j m. h j (ground (arith, m))))

  -- Once the collector was made, and if each key with a channel is that of a metric of the spec and
  -- has a worker, `handleCollector` returns the spec's metrics as the status, whatever the orders
  -- of the ranges. The keys with a channel and those with a worker are then those of the spec's
  -- metrics. The goroutines that were started in addition are as many for each key as the spec has
  -- metrics with that key, if the key had no channel, and none if it had one.
  pub handle_collector-starts :
      (o : Ranges) (spec : AomSpec) (s : CollectorState F) {p : Promc}
      → IsRanges o
      → s.p_collector ≡ some p
      → ((j : Text) → has j s.collector_map ≡ true → mem j (spec_keys spec) ≡ true)
      → ((j : Text) → has j s.collector_worker_map ≡ has j s.collector_map)
      → let r = handle_collector F o spec s in
        (r.0
          ≡ ok (
              map
                (λ (m : Metric). record { name = m.name; unit = m.unit; expression = m.query })
                (metric_values (o.metrics 4 spec.metrics))))
        × ((j : Text) → has j r.1.collector_map ≡ mem j (spec_keys spec))
        × ((j : Text) → has j r.1.collector_worker_map ≡ mem j (spec_keys spec))
        × (ks : List Text) × (map (λ (t : WorkerTask). t.key) r.1.tasks
            ≡ map (λ (t : WorkerTask). t.key) s.tasks ++ ks)
        × ((j : Text)
            → count j ks ≡ (if has j s.collector_map then 0 else count j (spec_keys spec)))
  unfolding handle_collector delete_workers
  handle_collector-starts o spec s {p} law made inside workers =
      let added = to_add F (metric_values (o.metrics 3 spec.metrics)) s.collector_map in
      let done = add_workers-Added added s made in
      let none_gone =
        to_delete-none (map no_model_key (metric_values spec.metrics))
          (o.keys 2 (keys s.collector_map))
          (λ j m. inside j (
            sym (Shuffle-mem j (law.keys_all 2 (keys s.collector_map)) ∙ mem-keys j s.collector_map)
            ∙ m)) in
      let covers =
        λ (j : Text). mem-to_add j (metric_values (o.metrics 3 spec.metrics)) s.collector_map in
      let same_keys = λ (j : Text). range_keys o law 3 spec j in
      rw
        (
          none_gone,
          handle_collector,
          delete_workers,
          and_then-ok (add_workers F added s) _ done.returns,
        )
        (
          refl,
          λ j. ground (arith, done.map_keys j, covers j, same_keys j, inside j),
          λ j. ground (arith, done.worker_keys j, covers j, same_keys j, inside j, workers j),
          map no_model_key added,
          done.started_tasks,
          λ j.
              count-to_add j (metric_values (o.metrics 3 spec.metrics)) s.collector_map
              ∙ ap (λ n. if has j s.collector_map then 0 else n)
                  (Shuffle-count j (
                    Shuffle-map no_model_key
                      (Shuffle-map (λ e. e.1) (law.metrics_all 3 spec.metrics)))),
        )
