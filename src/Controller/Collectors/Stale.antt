-- ===== src/Controller/Collectors/Stale.antt =====
-- What happens to the channel of a metric that left the spec.
use aom.Base.{
  if◌then◌else◌, ℕ, Bool, true, false, Text, List, [], ◌∷◌, map, some, Result, ok, err, panic, ◌≡◌,
  ◌⊎◌, inl, inr, refl, sym, ap, ◌∙◌, subst, same, length, get_elem?, set, All, arith, Option-cases,
  get_elem?-set, get_elem?-append, get_elem?-lt, Text-discrete,
}
use aom.Base.Dict.{Dict, keys, mem, lookup, erase, has, lookup-insert, lookup-has, mem-keys}
use aom.Base.Shuffle.{Shuffle-mem}
use aom.Base.Action.{and_then-keeps, and_then-eq-ok, and_then-panic}
use aom.Basetype.{Metric, no_model_key}
use aom.Floats.{Floats}
use aom.Collector.{Worker}
use aom.Controller.{AomSpec, StatusCollector, Ranges, IsRanges, metric_values}
use aom.Controller.Metrics.Keys.{range_keys}
use aom.Controller.Collectors.{
  CollectorState, to_add, to_delete, close, delete_workers, start_worker, add_worker, add_workers,
  handle_collector,
}

module _ (F : Floats) where
  -- The key's channel is closed.
  pub Stale : Text → CollectorState F → Type 0
  Stale k s =
      (ch : ℕ) × (lookup k s.collector_map ≡ some ch) × (get_elem? s.channels ch ≡ some true)

  Stale-has : (k : Text) (s : CollectorState F) → Stale k s → has k s.collector_map ≡ true
  unfolding Stale
  Stale-has k s (ch, f, g) = lookup-has k s.collector_map f

  pub close-cases :
      (ch : ℕ) (s : CollectorState F)
      → (close F ch s ≡ (panic, s))
        ⊎ ((close F ch s ≡ (ok tt, record s { channels = set s.channels ch true }))
            × (get_elem? s.channels ch ≡ some false))
  unfolding close
  close-cases ch s = elim (Option-cases (get_elem? s.channels ch)) [
    | inl e ↦ inl (rw (e, close) refl)
    | inr (true, e) ↦ inl (rw (e, close) refl)
    | inr (false, e) ↦ inr (rw (e, close) refl, e)
  ]

  closed-set :
      (cs : List Bool) (c ch : ℕ)
      → get_elem? cs c ≡ some false
      → get_elem? cs ch ≡ some true
      → get_elem? (set cs c true) ch ≡ some true
  closed-set cs c ch e f = ground (arith, get_elem?-set cs c ch true (get_elem?-lt cs c e))

  -- The state behind a successful round of the loop over the keys to delete.
  abbrev deleted : Text → ℕ → CollectorState F → CollectorState F
  deleted v c s = record s {
    channels = set s.channels c true;
    collector_worker_map = erase v s.collector_worker_map;
  }

  -- A round panics, or goes on from `deleted`.
  delete_workers-cases :
      (v : Text) (vs : List Text) (s : CollectorState F)
      → ((delete_workers F (v ∷ vs) s).0 ≡ panic)
        ⊎ ((c : ℕ) × (lookup v s.collector_map ≡ some c)
            × (get_elem? s.channels c ≡ some false)
            × (delete_workers F (v ∷ vs) s ≡ delete_workers F vs (deleted v c s)))
  unfolding delete_workers
  delete_workers-cases v vs s = elim (Option-cases (lookup v s.collector_map)) [
    | inl e ↦ inl (rw (e, delete_workers) refl)
    | inr (c, e) ↦ elim (close-cases c s) [
      | inl f ↦ inl (rw (e, f, delete_workers) refl)
      | inr (f, open_) ↦ inr (c, e, open_, rw (e, f, delete_workers) refl)
    ]
  ]

  deleted-Stale :
      (k v : Text) (c : ℕ) (s : CollectorState F)
      → get_elem? s.channels c ≡ some false
      → Stale k s
      → Stale k (deleted v c s)
  unfolding Stale
  deleted-Stale k v c s e (ch, f, g) = (ch, f, closed-set s.channels c ch e g)

  -- Deleting a key whose channel is closed panics.
  delete_workers-panics :
      (k : Text) (vs : List Text) (s : CollectorState F)
      → mem k vs ≡ true
      → Stale k s
      → (delete_workers F vs s).0 ≡ panic
  unfolding mem Stale
  delete_workers-panics k [] s m h = absurd (ground arith)
  delete_workers-panics k (v ∷ vs) s m (ch, f, g) = elim (delete_workers-cases v vs s) [
    | inl p ↦ p
    | inr (c, e, o, r) ↦ elim (Text-discrete k v) [
      | yes x ↦ absurd cc
      | no x ↦ rw (r) (
          delete_workers-panics k vs (deleted v c s) (ground arith)
            (deleted-Stale k v c s o (ch, f, g)))
    ]
  ]

  delete_workers-keeps :
      (k : Text) (vs : List Text) (s : CollectorState F)
      → Stale k s
      → (delete_workers F vs s).0 ≡ ok tt
      → Stale k (delete_workers F vs s).1
  unfolding delete_workers
  delete_workers-keeps k [] s h e = h
  delete_workers-keeps k (v ∷ vs) s h e = elim (delete_workers-cases v vs s) [
    | inl p ↦ cc
    | inr (c, f, o, r) ↦
        rw (r) (delete_workers-keeps k vs (deleted v c s) (deleted-Stale k v c s o h) (rw (r) at e))
  ]

  -- A deleted key's channel is closed, and its entry stays.
  delete_workers-Stale :
      (k : Text) (vs : List Text) (s : CollectorState F)
      → mem k vs ≡ true
      → (delete_workers F vs s).0 ≡ ok tt
      → Stale k (delete_workers F vs s).1
  unfolding mem Stale
  delete_workers-Stale k [] s m e = absurd (ground arith)
  delete_workers-Stale k (v ∷ vs) s m e = elim (delete_workers-cases v vs s) [
    | inl p ↦ cc
    | inr (c, f, o, r) ↦ elim (Text-discrete k v) [
      | yes x ↦ rw (r) (
          delete_workers-keeps k vs (deleted v c s)
            (
              c,
              ap (λ t. lookup t s.collector_map) x ∙ f,
              ground (arith, get_elem?-set s.channels c c true (get_elem?-lt s.channels c o)),
            )
            (rw (r) at e))
      | no x ↦ rw (r) (delete_workers-Stale k vs (deleted v c s) (ground arith) (rw (r) at e))
    ]
  ]

  start_worker-Stale :
      (k key : Text) (r : Result (Worker F)) (s : CollectorState F)
      → same k key ≡ false
      → Stale k s
      → Stale k (start_worker F key r s).1
  unfolding start_worker Stale
  start_worker-Stale k key (err e) s h st = st
  start_worker-Stale k key panic s h st = st
  start_worker-Stale k key (ok worker) s h (ch, f, g) = (
    ch,
    ground (arith, lookup-insert k key (length s.channels) s.collector_map),
    get_elem?-append s.channels _ ch (get_elem?-lt s.channels ch g) ∙ g,
  )

  add_worker-Stale :
      (k : Text) (m : Metric) (s : CollectorState F)
      → same k (no_model_key m) ≡ false
      → Stale k s
      → Stale k (add_worker F m s).1
  unfolding add_worker Stale
  add_worker-Stale k m s h st = elim (Option-cases s.p_collector) [
    | inl e ↦ rw (e, add_worker) st
    | inr (p, e) ↦ rw (e, add_worker) (start_worker-Stale k (no_model_key m) _ _ h st)
  ]

  add_workers-Stale :
      (k : Text) (ms : List Metric) (s : CollectorState F)
      → All (λ m. same k (no_model_key m) ≡ false) ms
      → Stale k s
      → Stale k (add_workers F ms s).1
  unfolding add_workers
  add_workers-Stale k [] s a st = st
  add_workers-Stale k (m ∷ ms) s (h, a) st =
      and_then-keeps (Stale k) (add_worker F m s) _ (add_worker-Stale k m s h st)
        (λ _ s'. add_workers-Stale k ms s' a)

  abbrev pub deletes : Ranges → AomSpec → CollectorState F → List Text
  deletes o spec s =
      to_delete F (map no_model_key (metric_values spec.metrics)) (o.keys 2 (keys s.collector_map))

  to_add-apart :
      (k : Text) (d : Dict ℕ) (ms : List Metric)
      → mem k (map no_model_key ms) ≡ false
      → All (λ m. same k (no_model_key m) ≡ false) (to_add F ms d)
  unfolding to_add mem
  to_add-apart k d [] h = tt
  to_add-apart k d (m ∷ ms) h =
      let rest = to_add-apart k d ms (ground arith) in
      elim (has (no_model_key m) d)
        as (λ b.
          All (λ m'. same k (no_model_key m') ≡ false)
            (if b then to_add F ms d else m ∷ to_add F ms d)) [
              | true ↦ rest
              | false ↦ (ground arith, rest)
            ]

  mem-to_delete :
      (k : Text) (spec_keys ks : List Text)
      → mem k spec_keys ≡ false
      → mem k ks ≡ true
      → mem k (to_delete F spec_keys ks) ≡ true
  unfolding to_delete mem
  mem-to_delete k spec_keys [] h m = m
  mem-to_delete k spec_keys (j ∷ ks) h m = elim (Text-discrete k j) [
    | yes x ↦
        let h' : mem j spec_keys ≡ false = ap (λ t. mem t spec_keys) (sym x) ∙ h in
        rw (h', to_delete) (ground arith)
    | no x ↦ ground (arith, mem-to_delete k spec_keys ks h (ground arith))
  ]

  mem-deletes :
      (o : Ranges) (spec : AomSpec) (s : CollectorState F) (k : Text)
      → IsRanges o
      → has k s.collector_map ≡ true
      → mem k (map no_model_key (metric_values spec.metrics)) ≡ false
      → mem k (deletes o spec s) ≡ true
  mem-deletes o spec s k law h n =
      mem-to_delete k _ _ n
        (Shuffle-mem k (law.keys_all 2 (keys s.collector_map)) ∙ (mem-keys k s.collector_map ∙ h))

  -- If `handleCollector` returns for a spec that lacks a key with a channel, the next call of it for
  -- a spec that lacks the key panics, whatever the orders of the ranges.
  pub handle_collector_again :
      (o o' : Ranges) (spec spec' : AomSpec) (k : Text) (s : CollectorState F)
      {l : List StatusCollector} {s' : CollectorState F}
      → IsRanges o
      → IsRanges o'
      → has k s.collector_map ≡ true
      → mem k (map no_model_key (metric_values spec.metrics)) ≡ false
      → mem k (map no_model_key (metric_values spec'.metrics)) ≡ false
      → handle_collector F o spec s ≡ (ok l, s')
      → (handle_collector F o' spec' s').0 ≡ panic
  unfolding handle_collector
  handle_collector_again o o' spec spec' k s {l} {s'} law law' h n n' e =
      let (_, t, e₁, e₂) = and_then-eq-ok (delete_workers F (deletes o spec s) s) _ e in
      let (_, u, e₃, e₄) =
        and_then-eq-ok
          (add_workers F (to_add F (metric_values (o.metrics 3 spec.metrics)) s.collector_map) t) _
          e₂ in
      let closed : Stale k t =
        subst (λ (r : Result (Unit {0}) × CollectorState F). Stale k r.1) e₁
          (delete_workers-Stale k (deletes o spec s) s (mem-deletes o spec s k law h n)
            (ap (λ r. r.0) e₁)) in
      let still : Stale k s' = subst (Stale k) (ap (λ r. r.1) e₄) (
        subst (λ (r : Result (Unit {0}) × CollectorState F). Stale k r.1) e₃
          (add_workers-Stale k _ t
            (to_add-apart k s.collector_map (metric_values (o.metrics 3 spec.metrics))
              (range_keys o law 3 spec k ∙ n))
            closed)) in
      and_then-panic (delete_workers F (deletes o' spec' s') s') _ (
        delete_workers-panics k (deletes o' spec' s') s'
          (mem-deletes o' spec' s' k law' (Stale-has k s' still) n') still)
