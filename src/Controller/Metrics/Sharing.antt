-- ===== src/Controller/Metrics/Sharing.antt =====
-- Where the pointers of the metric map lead after `handleMetrics`.
use aom.Base.{
  ℕ, ◌<◌, false, Text, List, [], ◌∷◌, map, some, ◌≡◌, ◌⊎◌, inl, inr, refl, sym, ap, subst, ◌∙◌,
  Result, ok, Text-discrete, if◌then◌else◌, ◌==◌, length, get_elem?, set, All, In, arith,
  length-set, get_elem?-set, get_elem?-append, All-map,
}
use aom.Base.Dict.{Dict, keys, mem, lookup, insert, erase, lookup-insert, lookup-erase, has-lookup}
use aom.Base.Shuffle.{Shuffle, Distinct, Shuffle-map, Shuffle-In, Shuffle-sym, Shuffle-Distinct}
use aom.Basetype.{Metric, Metric-discrete, no_model_key}
use aom.Controller.{AomSpec, Ranges, IsRanges, metric_values}
use aom.Controller.Metrics.{
  MetricState, zero_metric, declare, add_loop, delete_loop, change_loop, handle_metrics,
}
use aom.Controller.Metrics.Keys.{
  added, kept, has-kept, range_keys, All-has, length-added, length-declare,
}

declare-last : (cells : List Metric) → get_elem? (declare cells) (length cells) ≡ some zero_metric
declare-last [] = refl
declare-last (c ∷ cells) = declare-last cells

-- Every pointer of the map is one of the two.
Within : ℕ → ℕ → Dict ℕ → Type 0
Within a b d = (k : Text) (p : ℕ) → lookup k d ≡ some p → (p ≡ a) ⊎ (p ≡ b)

-- Every pointer of the map leads to the metric.
pub Reads : Metric → MetricState → Type 0
Reads metric s =
    (k : Text) (p : ℕ) → lookup k s.metric_map ≡ some p → get_elem? s.cells p ≡ some metric

pub last_metric : Metric → List Metric → Metric
last_metric z [] = z
last_metric z (m ∷ ms) = last_metric m ms

last_metric-In :
    (z : Metric) (ms : List Metric) (first : Metric) → In first ms → In (last_metric z ms) ms
unfolding last_metric
last_metric-In z [] first i = elim i [ ]
last_metric-In z (m ∷ []) first i = inl refl
last_metric-In z (m ∷ m' ∷ ms) first i = inr (last_metric-In m (m' ∷ ms) m' (inl refl))

-- Every pointer of the map is `a`.
Only : ℕ → Dict ℕ → Type 0
Only a d = (k : Text) (p : ℕ) → lookup k d ≡ some p → p ≡ a

add_loop-Only :
    (a : ℕ) (ms : List Metric) (s : MetricState)
    → Only a s.metric_map
    → Only a (add_loop a ms s).metric_map
unfolding add_loop Only
add_loop-Only a [] s h = h
add_loop-Only a (m ∷ ms) s h =
    add_loop-Only a ms _
      λ k p e. ground (arith, h k p, lookup-insert k (no_model_key m) a s.metric_map)

add_loop-cell :
    (a : ℕ) (ms : List Metric) (s : MetricState) (z : Metric)
    → a < length s.cells
    → get_elem? s.cells a ≡ some z
    → get_elem? (add_loop a ms s).cells a ≡ some (last_metric z ms)
unfolding add_loop last_metric
add_loop-cell a [] s z h e = e
add_loop-cell a (m ∷ ms) s z h e =
    add_loop-cell a ms _ m (omega (arith, length-set s.cells a m))
      (ground (arith, get_elem?-set s.cells a a m h))

pub lookup-delete_loop :
    (temp ks : List Text) (d : Dict ℕ) (k : Text) (p : ℕ)
    → lookup k (delete_loop temp ks d) ≡ some p
    → lookup k d ≡ some p
unfolding delete_loop
lookup-delete_loop temp [] d k p e = e
lookup-delete_loop temp (j ∷ ks) d k p e = ground (
  arith,
  lookup-delete_loop temp ks (if mem j temp then d else erase j d) k p e,
  lookup-erase k j d,
)

abbrev Points : ℕ → Dict ℕ → List Metric → Type 0
Points a d = All (λ m. lookup (no_model_key m) d ≡ some a)

Points-insert :
    (a b : ℕ) (d : Dict ℕ) (k : Text) (ms : List Metric)
    → (In k (map no_model_key ms) → ⊥)
    → Points a d ms
    → Points a (insert k b d) ms
Points-insert a b d k [] n h = tt
Points-insert a b d k (m ∷ ms) n (e, h) = (
  elim (Text-discrete (no_model_key m) k) [
    | yes same_key ↦ absurd (n (inl (sym same_key)))
    | no apart ↦ ground (arith, lookup-insert (no_model_key m) k b d)
  ],
  Points-insert a b d k ms (λ i. n (inr i)) h,
)

change_loop-Reads :
    (a b : ℕ) (metric : Metric) (ms : List Metric) (s : MetricState)
    → b < length s.cells
    → (b == a) ≡ false
    → get_elem? s.cells a ≡ some metric
    → Within a b s.metric_map
    → Points a s.metric_map ms
    → Distinct (map no_model_key ms)
    → In metric ms
    → Reads metric (change_loop b ms s).1
unfolding change_loop Within Reads
change_loop-Reads a b metric [] s h n e w p d i = elim i [ ]
change_loop-Reads a b metric (m ∷ ms) s h n e w (p, ps) (apart, d) i =
    let cells = set s.cells b m in
    let key = no_model_key m in
    let size = length-set s.cells b m in
    let at_a : get_elem? cells a ≡ some metric = ground (arith, get_elem?-set s.cells b a m h) in
    let at_b : get_elem? cells b ≡ some m = ground (arith, get_elem?-set s.cells b b m h) in
    rw (p, at_a, change_loop)
      (elim (Metric-discrete metric m)
        as (λ e.
          Reads metric
            (elim e as (λ _. Result (Unit {0}) × MetricState) [
              | yes _ ↦ (ok tt, record s { cells = cells })
              | no _ ↦
                  change_loop b ms
                    (record { cells = cells; metric_map = insert key b s.metric_map })
            ]).1) [
              | yes x ↦ λ k q f. elim (w k q f) [
                | inl q_a ↦ subst (λ r. get_elem? cells r ≡ some metric) (sym q_a) at_a
                | inr q_b ↦
                    subst (λ r. get_elem? cells r ≡ some metric) (sym q_b) (at_b ∙ ap some (sym x))
              ]
              | no x ↦
                  change_loop-Reads a b metric ms _ (omega (arith, size)) n at_a
                    (λ k q f. ground (arith, w k q, lookup-insert k key b s.metric_map))
                    (Points-insert a b s.metric_map key ms apart ps) d
                    (elim i [ inl f ↦ absurd (x f) | inr j ↦ j ])
            ])

-- Every pointer of the kept map is the variable of the first loop.
kept-Only :
    (o : Ranges) (spec : AomSpec) (cells : List Metric)
    → Only (length cells) (kept o spec (record { cells = cells; metric_map = [] }))
unfolding Only lookup
kept-Only o spec cells k p e =
    let s : MetricState = record { cells = cells; metric_map = [] } in
    add_loop-Only (length cells) (metric_values (o.metrics 0 spec.metrics)) _ (λ j q f. cc) k p
      (lookup-delete_loop (map no_model_key (metric_values (o.metrics 1 spec.metrics)))
        (o.keys 0 (keys (added o spec s).metric_map)) (added o spec s).metric_map k p e)

kept-Points :
    (o : Ranges) (spec : AomSpec) (cells : List Metric)
    → IsRanges o
    → Points
        (length cells)
        (kept o spec (record { cells = cells; metric_map = [] }))
        (metric_values (o.metrics 2 spec.metrics))
unfolding Only
kept-Points o spec cells law =
    let s : MetricState = record { cells = cells; metric_map = [] } in
    All-map (metric_values (o.metrics 2 spec.metrics))
      (λ m h.
        let (p, f) = has-lookup (no_model_key m) (kept o spec s) h in
        f ∙ ap some (kept-Only o spec cells (no_model_key m) p f))
      (All-has (metric_values (o.metrics 2 spec.metrics)) (kept o spec s)
        (λ j e. has-kept o spec s j law ∙ (sym (range_keys o law 2 spec j) ∙ e)))

-- If the metrics of a spec that has one have distinct keys, then after `handleMetrics` on an empty
-- map, whatever the cells and the orders of the ranges, every pointer of the map leads to one and
-- the same metric, the last one that the first range visits.
pub handle_metrics-Reads :
    (o : Ranges) (spec : AomSpec) (cells : List Metric) (first : Metric)
    → IsRanges o
    → Distinct (map no_model_key (metric_values spec.metrics))
    → In first (metric_values spec.metrics)
    → Reads
        (last_metric zero_metric (metric_values (o.metrics 0 spec.metrics)))
        (handle_metrics o spec (record { cells = cells; metric_map = [] })).1
unfolding handle_metrics Within Only
handle_metrics-Reads o spec cells first law d i =
    let s : MetricState = record { cells = cells; metric_map = [] } in
    let all : (k : ℕ)
        → Shuffle (metric_values (o.metrics k spec.metrics)) (metric_values spec.metrics) =
      λ k. Shuffle-map (λ e. e.1) (law.metrics_all k spec.metrics) in
    let size = length-added o spec s in
    let grown = length-declare (added o spec s).cells in
    let last = last_metric zero_metric (metric_values (o.metrics 0 spec.metrics)) in
    change_loop-Reads (length cells) (length (added o spec s).cells) last _
      (record { cells = declare (added o spec s).cells; metric_map = kept o spec s })
      (omega (arith, grown)) (ground (arith, size))
      (get_elem?-append (added o spec s).cells _ (length cells) (omega (arith, size))
        ∙ add_loop-cell (length cells) _ _ zero_metric (omega (arith, length-declare cells))
            (declare-last cells))
      (λ k p e. inl (kept-Only o spec cells k p e)) (kept-Points o spec cells law)
      (Shuffle-Distinct (Shuffle-sym (Shuffle-map no_model_key (all 2))) d)
      (Shuffle-In last (Shuffle-sym (all 2)) (
        Shuffle-In last (all 0)
          (last_metric-In zero_metric _ first (Shuffle-In first (Shuffle-sym (all 0)) i))))
