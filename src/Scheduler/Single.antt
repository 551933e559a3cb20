-- ===== src/Scheduler/Single.antt =====
-- The decision of a round with one result.
use aom.Base.{
  suc, Text, List, [], ◌∷◌, map, Option, some, Result, ◌>>=◌, ok, ◌≡◌, refl, ap, ◌∙◌, length,
  replicate, arith, length-map, length-replicate,
}
use aom.Base.Int.{ℤ, pos, ◌*ℤ◌, wrap32, wrap32-IsInt32, wrap32_of_IsInt32, zero-+ℤ}
use aom.Base.Dict.{lookup, insert}
use aom.Base.Shuffle.{Shuffle-one}
use aom.Basetype.{Metric}
use aom.Floats.{Floats}
use aom.K8s.{Scales}
use aom.Aomtype.{Hide, Heap}
use aom.Utils.Keys.{get_no_model_key}
use aom.Utils.Slices.{max_from, mul_slice, add_slice}
use aom.Scaler.{get_metric_replica, get_scale_replica}
use aom.Scaler.Strategy.{max_of, max_strategy, select_max}
use aom.Scaler.Strategy.Columns.{zip_rows_one, merge_rows-eq}
use aom.Scheduler.{ResPair, Answers, IsAnswers, load, group, merge, weigh, decide_from}

pub max_strategy_one : (v : List ℤ) → max_strategy (v ∷ []) ≡ ok (map (λ x. max_of x (pos 0)) v)
unfolding max_strategy
max_strategy_one v =
    merge_rows-eq max_of (v ∷ []) (replicate (length v) (pos 0))
    ∙ ground (arith, zip_rows_one max_of v (pos 0), length-replicate (length v) (pos 0))

pub length-mul_slice : (k : ℤ) (v : List ℤ) → length (mul_slice k v) ≡ length v
unfolding mul_slice
length-mul_slice k [] = refl
length-mul_slice k (x ∷ v) = ap suc (length-mul_slice k v)

add_slice_one :
    (x : ℤ) (xs : List ℤ)
    → add_slice ((wrap32 x ∷ xs) ∷ []) ≡ ok (wrap32 x ∷ replicate (length xs) (pos 0))
unfolding add_slice
add_slice_one x xs = rw (zero-+ℤ (wrap32 x), wrap32_of_IsInt32 (wrap32 x) (wrap32-IsInt32 x)) refl

add_slice_first :
    (k x : ℤ) (xs : List ℤ)
    → add_slice (mul_slice k (x ∷ xs) ∷ [])
      ≡ ok (wrap32 (x *ℤ k) ∷ replicate (length (mul_slice k xs)) (pos 0))
unfolding mul_slice
add_slice_first k x xs = add_slice_one (x *ℤ k) (mul_slice k xs)

-- The greatest entry of what the round offers for one prediction `r ∷ rs` and a weight: the first
-- predicted count times the weight, and zeros for the others.
unfoldable pub offered : ℤ → ℤ → List ℤ → ℤ
unfolding max_from wrap32
offered weight r rs = max_from (wrap32 (max_of r (pos 0) *ℤ weight)) (replicate (length rs) (pos 0))

module _ (F : Floats) (K : Scales) where
  -- The end of a round, from the sum.
  abbrev pub pick : Result (List ℤ) → Result (Option ℤ)
  pick sum = do obj_set ← sum; target ← get_scale_replica obj_set select_max; ok (some target)

  group_one :
      (pair : ResPair) {nmk : Text}
      → get_no_model_key pair.with_model_key ≡ ok nmk
      → group F K (pair ∷ []) [] ≡ ok ((nmk, pair.model_replica ∷ []) ∷ [])
  unfolding group lookup insert
  group_one pair k = rw k refl

  merge_one :
      (nmk : Text) (rows : List (List ℤ)) {m : List ℤ}
      → max_strategy rows ≡ ok m
      → merge F K ((nmk, rows) ∷ []) [] ≡ ok ((nmk, m) ∷ [])
  unfolding merge get_metric_replica insert
  merge_one nmk rows e = rw e refl

  weigh_one :
      (nmk : Text) (m : List ℤ) (h : Hide F) (heap : Heap F) {metric : Metric}
      → load F K nmk h.metric_map heap.metrics ≡ ok metric
      → weigh F K ((nmk, m) ∷ []) h heap ≡ ok (mul_slice metric.weight m ∷ [])
  unfolding weigh
  weigh_one nmk m h heap e = rw (e, weigh) refl

  -- With one result, for a metric that is there, a round decides by the first predicted count
  -- alone: the count, or 0 if it is less, times the weight and wrapped to `int32`, or 0 if that is
  -- more and the prediction has further entries. What is predicted for later plays no part.
  pub decide_from-one :
      (a : Answers F K) (h : Hide F) (heap : Heap F) (nmk wmk : Text) (metric : Metric) (r : ℤ)
      (rs : List ℤ)
      → IsAnswers F K a
      → get_no_model_key wmk ≡ ok nmk
      → load F K nmk h.metric_map heap.metrics ≡ ok metric
      → decide_from F K a (record { model_replica = r ∷ rs; with_model_key = wmk } ∷ []) h heap
        ≡ ok (some (offered metric.weight r rs))
  unfolding decide_from offered
  decide_from-one a h heap nmk wmk metric r rs law k found =
      let counts = map (λ x. max_of x (pos 0)) (r ∷ rs) in
      let scaled = mul_slice metric.weight (map (λ x. max_of x (pos 0)) rs) in
      let size : length scaled ≡ length rs =
        length-mul_slice metric.weight (map (λ x. max_of x (pos 0)) rs)
        ∙ length-map rs (λ x. max_of x (pos 0)) in
      let added : add_slice (mul_slice metric.weight counts ∷ [])
          ≡ ok (wrap32 (max_of r (pos 0) *ℤ metric.weight) ∷ replicate (length rs) (pos 0)) =
        add_slice_first metric.weight (max_of r (pos 0)) (map (λ x. max_of x (pos 0)) rs)
        ∙ ap (λ n. ok (wrap32 (max_of r (pos 0) *ℤ metric.weight) ∷ replicate n (pos 0))) size in
      let pair : ResPair = record { model_replica = r ∷ rs; with_model_key = wmk } in
      rw
        (
          group_one pair k,
          Shuffle-one (nmk, (r ∷ rs) ∷ []) (law.groups_all ((nmk, (r ∷ rs) ∷ []) ∷ [])) refl,
          merge_one nmk ((r ∷ rs) ∷ []) (max_strategy_one (r ∷ rs)),
          Shuffle-one (nmk, counts) (law.metrics_all ((nmk, counts) ∷ [])) refl,
          weigh_one nmk counts h heap found,
          decide_from,
        )
        (ap pick added)
