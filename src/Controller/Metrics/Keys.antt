-- ===== src/Controller/Metrics/Keys.antt =====
-- The keys of the metric map after `handleMetrics`.
use aom.Base.{
  ℕ, suc, ◌<◌, ◌≤◌, true, false, Text, List, [], ◌∷◌, map, some, ◌≡◌, refl, sym, subst, ◌∙◌, Result,
  ok, if◌then◌else◌, length, set, All, arith, length-set, length-append, get_elem?_of_lt, All-map,
}
use aom.Base.Dict.{
  Dict, keys, mem, lookup, insert, erase, has, has-insert, has-erase, lookup-insert, lookup-erase,
  mem-keys, has-lookup,
}
use aom.Base.Shuffle.{Shuffle-map, Shuffle-mem}
use aom.Basetype.{Metric, Metric-discrete, no_model_key}
use aom.Controller.{AomSpec, Ranges, IsRanges, metric_values}
use aom.Controller.Metrics.{
  MetricState, zero_metric, declare, add_loop, delete_loop, change_loop, handle_metrics,
}

-- Every pointer of the map leads to one of `n` cells.
abbrev pub IsValid : ℕ → Dict ℕ → Type 0
IsValid n d = (k : Text) (p : ℕ) → lookup k d ≡ some p → p < n

pub IsValid-insert :
    (n : ℕ) (d : Dict ℕ) (k : Text) (p : ℕ) → p < n → IsValid n d → IsValid n (insert k p d)
IsValid-insert n d k p h v j q e = ground (arith, lookup-insert j k p d, v j q)

pub IsValid-erase : (n : ℕ) (d : Dict ℕ) (k : Text) → IsValid n d → IsValid n (erase k d)
IsValid-erase n d k v j q e = ground (arith, lookup-erase j k d, v j q)

pub has-delete_loop {ℓ} :
    {V : Type ℓ} (temp ks : List Text) (d : Dict V) (j : Text)
    → has j (delete_loop temp ks d)
      ≡ (if mem j temp then has j d else if mem j ks then false else has j d)
unfolding delete_loop mem
has-delete_loop temp [] d j = ground arith
has-delete_loop temp (k ∷ ks) d j =
    ground (arith, has-delete_loop temp ks (if mem k temp then d else erase k d) j, has-erase j k d)

pub IsValid-delete_loop :
    (n : ℕ) (temp ks : List Text) (d : Dict ℕ) → IsValid n d → IsValid n (delete_loop temp ks d)
unfolding delete_loop
IsValid-delete_loop n temp [] d v = v
IsValid-delete_loop n temp (k ∷ ks) d v =
    elim (mem k temp) as (λ b. IsValid n (delete_loop temp ks (if b then d else erase k d))) [
      | true ↦ IsValid-delete_loop n temp ks d v
      | false ↦ IsValid-delete_loop n temp ks (erase k d) (IsValid-erase n d k v)
    ]

abbrev pub keys_of : List Metric → List Text
keys_of = map no_model_key

has-add_loop :
    (ptr : ℕ) (ms : List Metric) (s : MetricState) (j : Text)
    → has j (add_loop ptr ms s).metric_map
      ≡ (if has j s.metric_map then true else mem j (keys_of ms))
unfolding add_loop mem
has-add_loop ptr [] s j = ground arith
has-add_loop ptr (m ∷ ms) s j =
    has-add_loop ptr ms _ j ∙ ground (arith, has-insert j (no_model_key m) ptr s.metric_map)

length-add_loop :
    (ptr : ℕ) (ms : List Metric) (s : MetricState)
    → length (add_loop ptr ms s).cells ≡ length s.cells
unfolding add_loop
length-add_loop ptr [] s = refl
length-add_loop ptr (m ∷ ms) s = length-add_loop ptr ms _ ∙ length-set s.cells ptr m

IsValid-add_loop :
    (n ptr : ℕ) (ms : List Metric) (s : MetricState)
    → ptr < n
    → IsValid n s.metric_map
    → IsValid n (add_loop ptr ms s).metric_map
unfolding add_loop
IsValid-add_loop n ptr [] s h v = v
IsValid-add_loop n ptr (m ∷ ms) s h v =
    IsValid-add_loop n ptr ms _ h
      (elim (has (no_model_key m) s.metric_map)
        as (λ b. IsValid n (if b then s.metric_map else insert (no_model_key m) ptr s.metric_map)) [
          | true ↦ v
          | false ↦ IsValid-insert n s.metric_map (no_model_key m) ptr h v
        ])

-- What the last loop keeps and returns.
record Changed (s : MetricState) (r : Result (Unit {0}) × MetricState) : Type 0 where
  returns : r.0 ≡ ok tt
  same_keys : (j : Text) → has j r.1.metric_map ≡ has j s.metric_map
  valid : IsValid (length s.cells) r.1.metric_map
  same_size : length r.1.cells ≡ length s.cells

has-insert_old : (d : Dict ℕ) (k j : Text) (p : ℕ) → has k d ≡ true → has j (insert k p d) ≡ has j d
has-insert_old d k j p h = ground (arith, has-insert j k p d)

-- From the state after a store under a key of the map, to the state before it.
Changed-store :
    (s : MetricState) (cells : List Metric) (key : Text) (ptr : ℕ)
    {r : Result (Unit {0}) × MetricState}
    → length cells ≡ length s.cells
    → has key s.metric_map ≡ true
    → Changed (record { cells = cells; metric_map = insert key ptr s.metric_map }) r
    → Changed s r
Changed-store s cells key ptr {r} size old c = record {
  returns = c.returns;
  same_keys = λ j. c.same_keys j ∙ has-insert_old s.metric_map key j ptr old;
  valid = subst (λ n. IsValid n r.1.metric_map) size c.valid;
  same_size = c.same_size ∙ size;
}

change_loop-Changed :
    (ptr : ℕ) (ms : List Metric) (s : MetricState)
    → ptr < length s.cells
    → IsValid (length s.cells) s.metric_map
    → All (λ m. has (no_model_key m) s.metric_map ≡ true) ms
    → Changed s (change_loop ptr ms s)
unfolding change_loop
change_loop-Changed ptr [] s h v a = record {
  returns = refl;
  same_keys = λ j. refl;
  valid = v;
  same_size = refl;
}
change_loop-Changed ptr (m ∷ ms) s h v (here, rest) =
    let key = no_model_key m in
    let cells = set s.cells ptr m in
    let size = length-set s.cells ptr m in
    let (old, e₁) = has-lookup key s.metric_map here in
    let (old_metric, e₂) = get_elem?_of_lt cells old (omega (arith, v key old e₁, size)) in
    rw (e₁, e₂, change_loop)
      (elim (Metric-discrete old_metric m)
        as (λ d. Changed s (elim d [
          | yes _ ↦ (ok tt, record s { cells = cells })
          | no _ ↦
              change_loop ptr ms
                (record { cells = cells; metric_map = insert key ptr s.metric_map })
        ])) [
          | yes _ ↦ record { returns = refl; same_keys = λ j. refl; valid = v; same_size = size }
          | no _ ↦ Changed-store s cells key ptr size here (
              change_loop-Changed ptr ms
                (record { cells = cells; metric_map = insert key ptr s.metric_map })
                (omega (arith, size))
                (subst (λ n. IsValid n (insert key ptr s.metric_map)) (sym size)
                  (IsValid-insert (length s.cells) s.metric_map key ptr h v))
                (All-map ms (λ m' p. has-insert_old s.metric_map key (no_model_key m') ptr here ∙ p)
                  rest))
        ])

-- The metrics of a spec, by their keys.
abbrev pub spec_keys : AomSpec → List Text
spec_keys spec = keys_of (metric_values spec.metrics)

pub range_keys :
    (o : Ranges)
    → IsRanges o
    → (i : ℕ) (spec : AomSpec) (j : Text)
    → mem j (keys_of (metric_values (o.metrics i spec.metrics))) ≡ mem j (spec_keys spec)
range_keys o law i spec j =
    Shuffle-mem j
      (Shuffle-map no_model_key (Shuffle-map (λ e. e.1) (law.metrics_all i spec.metrics)))

pub All-has :
    (ms : List Metric) (d : Dict ℕ)
    → ((j : Text) → mem j (keys_of ms) ≡ true → has j d ≡ true)
    → All (λ m. has (no_model_key m) d ≡ true) ms
unfolding mem
All-has [] d h = tt
All-has (m ∷ ms) d h = (h (no_model_key m) (ground arith), All-has ms d (λ j e. h j (ground arith)))

abbrev pub added : Ranges → AomSpec → MetricState → MetricState
added o spec s =
    add_loop (length s.cells) (metric_values (o.metrics 0 spec.metrics))
      (record s { cells = declare s.cells })

-- The map behind the loop under "Delete".
abbrev pub kept : Ranges → AomSpec → MetricState → Dict ℕ
kept o spec s =
    delete_loop (keys_of (metric_values (o.metrics 1 spec.metrics)))
      (o.keys 0 (keys (added o spec s).metric_map)) (added o spec s).metric_map

pub has-kept :
    (o : Ranges) (spec : AomSpec) (s : MetricState) (j : Text)
    → IsRanges o
    → has j (kept o spec s) ≡ mem j (spec_keys spec)
has-kept o spec s j law =
    let map' = (added o spec s).metric_map in
    ground (
      arith,
      has-delete_loop (keys_of (metric_values (o.metrics 1 spec.metrics))) (o.keys 0 (keys map'))
          map' j,
      has-add_loop (length s.cells) (metric_values (o.metrics 0 spec.metrics))
          (record s { cells = declare s.cells }) j,
      range_keys o law 0 spec j,
      range_keys o law 1 spec j,
      Shuffle-mem j (law.keys_all 0 (keys map')),
      mem-keys j map',
    )

pub length-declare : (cells : List Metric) → length (declare cells) ≡ suc (length cells)
length-declare cells = omega (arith, length-append cells (zero_metric ∷ []))

pub length-added :
    (o : Ranges) (spec : AomSpec) (s : MetricState)
    → length (added o spec s).cells ≡ suc (length s.cells)
length-added o spec s =
    length-add_loop (length s.cells) (metric_values (o.metrics 0 spec.metrics)) _
    ∙ length-declare s.cells

pub IsValid-mono : (m n : ℕ) (d : Dict ℕ) → m ≤ n → IsValid m d → IsValid n d
IsValid-mono m n d h v k p e = omega (arith, v k p e)

IsValid-kept :
    (o : Ranges) (spec : AomSpec) (s : MetricState)
    → IsValid (length s.cells) s.metric_map
    → IsValid (suc (length s.cells)) (kept o spec s)
IsValid-kept o spec s v = IsValid-delete_loop _ _ _ _ (
    IsValid-add_loop (suc (length s.cells)) (length s.cells) _ _ (omega arith)
      (IsValid-mono (length s.cells) _ s.metric_map (omega arith) v))

-- The last loop, from the state that it meets.
handle_metrics-Changed :
    (o : Ranges) (spec : AomSpec) (s : MetricState)
    → IsRanges o
    → IsValid (length s.cells) s.metric_map
    → Changed
        (record { cells = declare (added o spec s).cells; metric_map = kept o spec s })
        (handle_metrics o spec s)
unfolding handle_metrics
handle_metrics-Changed o spec s law v =
    let cells = (added o spec s).cells in
    let size = length-declare cells in
    let before = length-added o spec s in
    change_loop-Changed (length cells) (metric_values (o.metrics 2 spec.metrics)) _
      (omega (arith, size))
      (IsValid-mono (suc (length s.cells)) _ (kept o spec s) (omega (arith, size, before))
        (IsValid-kept o spec s v))
      (All-has (metric_values (o.metrics 2 spec.metrics)) (kept o spec s)
        (λ j e. has-kept o spec s j law ∙ (sym (range_keys o law 2 spec j) ∙ e)))

-- In whatever orders the ranges visit the metrics, `handleMetrics` returns without an error if
-- every stored pointer leads to a cell. The keys of the map are then those of the spec's metrics,
-- whatever they were before, and every stored pointer still leads to a cell.
pub handle_metrics-keys :
    (o : Ranges) (spec : AomSpec) (s : MetricState)
    → IsRanges o
    → IsValid (length s.cells) s.metric_map
    → let r = handle_metrics o spec s in
      (r.0 ≡ ok tt)
      × ((j : Text) → has j r.1.metric_map ≡ mem j (spec_keys spec))
      × IsValid (length r.1.cells) r.1.metric_map
unfolding handle_metrics
handle_metrics-keys o spec s law v =
    let c = handle_metrics-Changed o spec s law v in
    let n = c.same_size in
    (
      c.returns,
      λ j. c.same_keys j ∙ has-kept o spec s j law,
      λ k p e. omega (arith, c.valid k p e, n),
    )
