-- ===== src/Scheduler/Double.antt =====
-- The decision of a round with one result for each of two metrics.
use mathlib.Core.List.{tail}
use aom.Base.{
  false, Text, List, [], ◌∷◌, map, some, ◌>>=◌, ok, ◌≡◌, ◌⊎◌, inl, inr, refl, sym, ap, ◌∙◌, length,
  replicate, length-map, same,
}
use aom.Base.Int.{ℤ, pos, ◌*ℤ◌, wrap32, wrap32-IsInt32, wrap32_of_IsInt32, zero-+ℤ}
use aom.Base.Dict.{Dict, keys, lookup, insert}
use aom.Base.Shuffle.{Shuffle, nothing, under, exchange, after, Shuffle-one, Shuffle-refl}
use aom.Basetype.{Metric}
use aom.Floats.{Floats}
use aom.K8s.{Scales}
use aom.Aomtype.{Hide, Heap}
use aom.Utils.Keys.{get_no_model_key}
use aom.Utils.Slices.{max_from, mul_slice, add_slice}
use aom.Scaler.{get_metric_replica, get_scale_replica}
use aom.Scaler.Strategy.{max_of, max_strategy, select_max}
use aom.Scheduler.{ResPair, Answers, IsAnswers, load, group, merge, weigh, decide_from}
use aom.Scheduler.Single.{max_strategy_one, length-mul_slice, pick}

Shuffle-two :
    {A : Type 0} {xs ys : List A} (a b : A)
    → Shuffle xs ys
    → ys ≡ a ∷ b ∷ []
    → (xs ≡ a ∷ b ∷ []) ⊎ (xs ≡ b ∷ a ∷ [])
Shuffle-two a b nothing e = cc
Shuffle-two a b (under x p) e = let f = Shuffle-one b p (ap tail e) in inl cc
Shuffle-two a b (exchange x y xs) e = inr cc
Shuffle-two a b (after p q) e = elim (Shuffle-two a b q e) [
  | inl f ↦ Shuffle-two a b p f
  | inr f ↦ elim (Shuffle-two b a p f) [ inl g ↦ inr g | inr g ↦ inl g ]
]

-- `v` with 0 in place of what is less.
abbrev pub raised : List ℤ → List ℤ
raised = map (λ x. max_of x (pos 0))

-- The greatest entry of what the round offers for two metrics: the first count of the metric that
-- the range visits first and the second count of the other one, each times its weight, and zeros.
unfoldable pub paired : ℤ → ℤ → List ℤ → ℤ → ℤ → ℤ
unfolding max_from wrap32
paired weight first more weight' second =
    max_from (wrap32 (max_of first (pos 0) *ℤ weight))
      (wrap32 (max_of second (pos 0) *ℤ weight') ∷ replicate (length more) (pos 0))

add_slice_two :
    (x y b c : ℤ) (xs cs : List ℤ)
    → add_slice ((wrap32 x ∷ y ∷ xs) ∷ (b ∷ wrap32 c ∷ cs) ∷ [])
      ≡ ok (wrap32 x ∷ wrap32 c ∷ replicate (length xs) (pos 0))
unfolding add_slice
add_slice_two x y b c xs cs =
    rw
      (
        zero-+ℤ (wrap32 x),
        wrap32_of_IsInt32 (wrap32 x) (wrap32-IsInt32 x),
        zero-+ℤ (wrap32 c),
        wrap32_of_IsInt32 (wrap32 c) (wrap32-IsInt32 c),
      )
      refl

insert_apart :
    {V : Type 0} (l k : Text) (v w : V)
    → same l k ≡ false
    → insert l v ((k, w) ∷ []) ≡ (k, w) ∷ (l, v) ∷ []
unfolding insert
insert_apart l k v w n = rw n refl

module _ (F : Floats) (K : Scales) where
  group_two :
      (p q : ResPair) {k l : Text}
      → get_no_model_key p.with_model_key ≡ ok k
      → get_no_model_key q.with_model_key ≡ ok l
      → same l k ≡ false
      → group F K (p ∷ q ∷ []) [] ≡ ok ((k, p.model_replica ∷ []) ∷ (l, q.model_replica ∷ []) ∷ [])
  unfolding group lookup insert
  group_two p q {k} {l} e f n =
      rw (e, f, n) (ap ok (insert_apart l k (q.model_replica ∷ []) (p.model_replica ∷ []) n))

  merge_two :
      (k l : Text) (rows rows' : List (List ℤ)) {m m' : List ℤ}
      → max_strategy rows ≡ ok m
      → max_strategy rows' ≡ ok m'
      → same l k ≡ false
      → merge F K ((k, rows) ∷ (l, rows') ∷ []) [] ≡ ok ((k, m) ∷ (l, m') ∷ [])
  unfolding merge get_metric_replica insert
  merge_two k l rows rows' {m} {m'} e f n = rw (e, f) (ap ok (insert_apart l k m' m n))

  weigh_two :
      (k l : Text) (m m' : List ℤ) (h : Hide F) (heap : Heap F) {metric metric' : Metric}
      → load F K k h.metric_map heap.metrics ≡ ok metric
      → load F K l h.metric_map heap.metrics ≡ ok metric'
      → weigh F K ((k, m) ∷ (l, m') ∷ []) h heap
        ≡ ok (mul_slice metric.weight m ∷ mul_slice metric'.weight m' ∷ [])
  unfolding weigh
  weigh_two k l m m' h heap e f = rw (e, f, weigh) refl

  -- The end of a round, once the range visits `k` first.
  sum_two :
      (k l : Text) (h : Hide F) (heap : Heap F) {metric metric' : Metric} (r s q t : ℤ)
      (rs ts : List ℤ)
      → load F K k h.metric_map heap.metrics ≡ ok metric
      → load F K l h.metric_map heap.metrics ≡ ok metric'
      → (do
        m_replicas ← weigh F K ((k, raised (r ∷ s ∷ rs)) ∷ (l, raised (q ∷ t ∷ ts)) ∷ []) h heap
        pick F K (add_slice m_replicas))
        ≡ ok (some (paired metric.weight r rs metric'.weight t))
  unfolding mul_slice paired get_scale_replica select_max
  sum_two k l h heap {metric} {metric'} r s q t rs ts e f =
      let size : length (mul_slice metric.weight (raised rs)) ≡ length rs =
        length-mul_slice metric.weight (raised rs) ∙ length-map rs (λ x. max_of x (pos 0)) in
      rw
        (
          weigh_two k l (raised (r ∷ s ∷ rs)) (raised (q ∷ t ∷ ts)) h heap e f,
          add_slice_two (max_of r (pos 0) *ℤ metric.weight)
              (wrap32 (max_of s (pos 0) *ℤ metric.weight))
              (wrap32 (max_of q (pos 0) *ℤ metric'.weight)) (max_of t (pos 0) *ℤ metric'.weight)
              (mul_slice metric.weight (raised rs)) (mul_slice metric'.weight (raised ts)),
          size,
        )
        refl

  -- Whatever the two ranges do, the second one visits the two metrics in one order or the other.
  visited_two :
      (a : Answers F K) (k l : Text) (v w : List ℤ)
      → IsAnswers F K a
      → same k l ≡ false
      → same l k ≡ false
      → (d : Dict (List ℤ)) × (merge F K (a.range_groups ((k, v ∷ []) ∷ (l, w ∷ []) ∷ [])) []
          ≡ ok d)
        × Shuffle d ((k, raised v) ∷ (l, raised w) ∷ [])
        × (keys d ≡ keys (a.range_groups ((k, v ∷ []) ∷ (l, w ∷ []) ∷ [])))
        × ((a.range_metrics d ≡ (k, raised v) ∷ (l, raised w) ∷ [])
            ⊎ (a.range_metrics d ≡ (l, raised w) ∷ (k, raised v) ∷ []))
  unfolding keys
  visited_two a k l v w law n n' =
      let groups = (k, v ∷ []) ∷ (l, w ∷ []) ∷ [] in
      let m = max_strategy_one v in
      let m' = max_strategy_one w in
      elim (Shuffle-two (k, v ∷ []) (l, w ∷ []) (law.groups_all groups) refl) [
        | inl g ↦
            let d = (k, raised v) ∷ (l, raised w) ∷ [] in
            (
              d,
              ap (λ x. merge F K x []) g ∙ merge_two k l (v ∷ []) (w ∷ []) m m' n',
              Shuffle-refl d,
              sym (ap keys g),
              Shuffle-two (k, raised v) (l, raised w) (law.metrics_all d) refl,
            )
        | inr g ↦
            let d = (l, raised w) ∷ (k, raised v) ∷ [] in
            (
              d,
              ap (λ x. merge F K x []) g ∙ merge_two l k (w ∷ []) (v ∷ []) m' m n,
              exchange (l, raised w) (k, raised v) [],
              sym (ap keys g),
              elim (Shuffle-two (l, raised w) (k, raised v) (law.metrics_all d) refl) [
                | inl f ↦ inr f
                | inr f ↦ inl f
              ],
            )
      ]

  -- With one result for each of two metrics that are there, each with at least two predicted
  -- counts, let `d` be the map of the merged counts, in which less than 0 is 0 and whose entries
  -- stand in the order in which the range over the groups visits them. If the range over `d` visits
  -- the one metric first, the round decides by the first count of that one and the second count of
  -- the other, and if it visits the other metric first, by the first count of the other and the
  -- second count of the one; each times its metric's weight and wrapped, and with 0 for further
  -- entries of the row that is visited first.
  pub decide_from-two :
      (a : Answers F K) (h : Hide F) (heap : Heap F) (k l wmk wml : Text) (metric metric' : Metric)
      (r s q t : ℤ) (rs ts : List ℤ)
      → IsAnswers F K a
      → get_no_model_key wmk ≡ ok k
      → get_no_model_key wml ≡ ok l
      → same k l ≡ false
      → same l k ≡ false
      → load F K k h.metric_map heap.metrics ≡ ok metric
      → load F K l h.metric_map heap.metrics ≡ ok metric'
      → let decided =
          decide_from F K a
            (record { model_replica = r ∷ s ∷ rs; with_model_key = wmk }
              ∷ record { model_replica = q ∷ t ∷ ts; with_model_key = wml }
              ∷ [])
            h
            heap in
        let one : Text × List ℤ = (k, raised (r ∷ s ∷ rs)) in
        let other : Text × List ℤ = (l, raised (q ∷ t ∷ ts)) in
        (d : Dict (List ℤ)) × Shuffle d (one ∷ other ∷ [])
        × (keys d ≡ keys (a.range_groups ((k, (r ∷ s ∷ rs) ∷ []) ∷ (l, (q ∷ t ∷ ts) ∷ []) ∷ [])))
        × (((a.range_metrics d ≡ one ∷ other ∷ [])
              × (decided ≡ ok (some (paired metric.weight r rs metric'.weight t))))
            ⊎ ((a.range_metrics d ≡ other ∷ one ∷ [])
                × (decided ≡ ok (some (paired metric'.weight q ts metric.weight s)))))
  unfolding decide_from
  decide_from-two a h heap k l wmk wml metric metric' r s q t rs ts law e f n n' there there' =
      let p : ResPair = record { model_replica = r ∷ s ∷ rs; with_model_key = wmk } in
      let p' : ResPair = record { model_replica = q ∷ t ∷ ts; with_model_key = wml } in
      let groups = (k, (r ∷ s ∷ rs) ∷ []) ∷ (l, (q ∷ t ∷ ts) ∷ []) ∷ [] in
      let grouped : group F K (p ∷ p' ∷ []) [] ≡ ok groups = group_two p p' e f n' in
      let (d, merged, same_entries, same_order, visited) =
        visited_two a k l (r ∷ s ∷ rs) (q ∷ t ∷ ts) law n n' in
      (
        d,
        same_entries,
        same_order,
        elim visited [
          | inl v ↦ inl (
            v,
            rw (grouped, merged, v, decide_from) (sum_two k l h heap r s q t rs ts there there'),
          )
          | inr v ↦ inr (
            v,
            rw (grouped, merged, v, decide_from) (sum_two l k h heap q t r s ts rs there' there),
          )
        ],
      )
