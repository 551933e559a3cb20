-- ===== src/Controller/Collectors/Keeping.antt =====
-- Which keys have a worker behind a `handleCollector` that also deletes.
use aom.Base.{
  ℕ, Bool, true, false, Text, List, [], ◌∷◌, map, some, Result, ok, ◌≡◌, refl, sym, ap, subst, ◌∙◌,
  inl, inr, same, same_eq, if◌then◌else◌, Option-cases, Bool-cases, arith,
}
use aom.Base.Dict.{Dict, keys, mem, lookup, has, has-erase, mem-keys}
use aom.Base.Shuffle.{Shuffle-mem}
use aom.Base.Action.{and_then-returns, and_then-eq-ok}
use aom.Basetype.{Metric, no_model_key}
use aom.Floats.{Floats}
use aom.Collector.{Promc}
use aom.Controller.{AomSpec, StatusCollector, Ranges, IsRanges, metric_values}
use aom.Controller.Metrics.Keys.{spec_keys, range_keys}
use aom.Controller.Collectors.{
  CollectorState, to_add, to_delete, delete_workers, add_workers, handle_collector,
}
use aom.Controller.Collectors.Stale.{close-cases, deletes}
use aom.Controller.Collectors.Adding.{add_workers-Added}

-- The tests of one key: it is in the spec (`a`), has a channel (`c`), had a worker (`w`), is added
-- (`m`) and is deleted (`g`).
channel_after :
    (a c m : Bool)
    → m ≡ (if c then false else a)
    → (if m then true else c) ≡ (if a then true else c)
channel_after a c m e = ground (arith, e)

worker_after :
    (a c w m g : Bool)
    → m ≡ (if c then false else a)
    → g ≡ (if a then false else c)
    → (w ≡ true → c ≡ true)
    → (if m then true else if g then false else w) ≡ (if a then if c then w else true else false)
worker_after true true w m g e f h = ground arith
worker_after true false w m g e f h = ground arith
worker_after false true w m g e f h = ground arith
worker_after false false true m g e f h = let no = h refl in absurd cc
worker_after false false false m g e f h = ground arith

module _ (F : Floats) where
  -- A loop over the keys `vs` to delete that succeeds.
  record Deleted (vs : List Text) (s t : CollectorState F) : Type 0 where
    worker_keys :
        (j : Text)
        → has j t.collector_worker_map ≡ (if mem j vs then false else has j s.collector_worker_map)
    same_map : t.collector_map ≡ s.collector_map
    same_collector : t.p_collector ≡ s.p_collector

  delete_workers-Deleted :
      (vs : List Text) (s : CollectorState F) {t : CollectorState F}
      → delete_workers F vs s ≡ (ok tt, t)
      → Deleted vs s t
  unfolding delete_workers mem
  delete_workers-Deleted [] s {t} e =
      let behind : s ≡ t = ap (λ (r : Result (Unit {0}) × CollectorState F). r.1) e in
      subst (Deleted [] s) behind
        (record { worker_keys = λ j. refl; same_map = refl; same_collector = refl })
  delete_workers-Deleted (v ∷ vs) s {t} e = elim (Option-cases (lookup v s.collector_map)) [
    | inl f ↦ let failed = rw (f, delete_workers) at e in absurd cc
    | inr (ch, f) ↦ elim (close-cases F ch s) [
      | inl g ↦ let failed = rw (f, g, delete_workers) at e in absurd cc
      | inr (g, open_) ↦
          let rest = delete_workers-Deleted vs _ (rw (f, g, delete_workers) at e) in
          record {
            worker_keys =
                λ j. ground (arith, rest.worker_keys j, has-erase j v s.collector_worker_map);
            same_map = rest.same_map;
            same_collector = rest.same_collector;
          }
    ]
  ]

  mem-to_delete :
      (j : Text) (sk ks : List Text)
      → mem j (to_delete F sk ks) ≡ (if mem j sk then false else mem j ks)
  unfolding to_delete mem
  mem-to_delete j sk [] = ground arith
  mem-to_delete j sk (k ∷ ks) = elim (Bool-cases (same j k)) [
    | inl e ↦
        let there = ap (λ i. mem i sk) (same_eq j k e) in
        ground (arith, mem-to_delete j sk ks, there)
    | inr e ↦ ground (arith, mem-to_delete j sk ks)
  ]

  mem-added :
      (j : Text) (ms : List Metric) (d : Dict ℕ)
      → mem j (map no_model_key (to_add F ms d))
        ≡ (if has j d then false else mem j (map no_model_key ms))
  unfolding to_add mem
  mem-added j [] d = ground arith
  mem-added j (m ∷ ms) d = elim (Bool-cases (same j (no_model_key m))) [
    | inl e ↦
        let there = ap (λ k. has k d) (same_eq j (no_model_key m) e) in
        ground (arith, mem-added j ms d, there)
    | inr e ↦ ground (arith, mem-added j ms d)
  ]

  -- Once the collector was made, if every key with a worker has a channel and `handleCollector`
  -- succeeds, then in whatever orders the ranges visit, a key of the spec's metrics has a worker
  -- exactly if it had one or had no channel, and no other key has one. The keys with a channel are
  -- those of the spec's metrics and those that had one: the entry of a deleted key stays.
  pub handle_collector-keys :
      (o : Ranges) (spec : AomSpec) (s : CollectorState F) {l : List StatusCollector}
      {t : CollectorState F} {p : Promc}
      → IsRanges o
      → s.p_collector ≡ some p
      → ((j : Text) → has j s.collector_worker_map ≡ true → has j s.collector_map ≡ true)
      → handle_collector F o spec s ≡ (ok l, t)
      → (j : Text)
      → (has j t.collector_map ≡ (if mem j (spec_keys spec) then true else has j s.collector_map))
        × (has j t.collector_worker_map ≡ (
            if mem j (spec_keys spec)
            then (if has j s.collector_map then has j s.collector_worker_map else true)
            else false))
  unfolding handle_collector
  handle_collector-keys o spec s {l} {t} law made inside e j =
      let gone = deletes F o spec s in
      let added = to_add F (metric_values (o.metrics 3 spec.metrics)) s.collector_map in
      let (_, u, f, e₁) = and_then-eq-ok (delete_workers F gone s) _ e in
      let deleted = delete_workers-Deleted gone s f in
      let done = add_workers-Added F added u (deleted.same_collector ∙ made) in
      let (_, _, e₂) = and_then-returns (add_workers F added u) _ e₁ in
      let behind = ap (λ (r : Result (List StatusCollector) × CollectorState F). r.1) e₂ in
      let asked = mem-added j (metric_values (o.metrics 3 spec.metrics)) s.collector_map in
      let is_added =
        asked ∙ ap (λ b. if has j s.collector_map then false else b) (range_keys o law 3 spec j) in
      let listed =
        Shuffle-mem j (law.keys_all 2 (keys s.collector_map)) ∙ mem-keys j s.collector_map in
      let is_gone =
        mem-to_delete j (spec_keys spec) (o.keys 2 (keys s.collector_map))
        ∙ ap (λ b. if mem j (spec_keys spec) then false else b) listed in
      let same_map = ap (has j) deleted.same_map in
      (
        ap (λ (x : CollectorState F). has j x.collector_map) (sym behind)
            ∙ (done.map_keys j
                ∙ (ap (λ b. if mem j (map no_model_key added) then true else b) same_map
                    ∙ channel_after (mem j (spec_keys spec)) (has j s.collector_map) _ is_added)),
        ap (λ (x : CollectorState F). has j x.collector_worker_map) (sym behind)
            ∙ (done.worker_keys j
                ∙ (ap (λ b. if mem j (map no_model_key added) then true else b)
                      (deleted.worker_keys j)
                    ∙ worker_after (mem j (spec_keys spec)) (has j s.collector_map)
                        (has j s.collector_worker_map) _ _ is_added is_gone (inside j))),
      )
