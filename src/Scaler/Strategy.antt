-- ===== src/Scaler/Strategy.antt =====
-- scaler/strategy.go.
pub mod Columns
pub mod Greatest
pub mod Mean
pub mod Orders
use aom.Base.{
  ℕ, zero, suc, Bool, List, [], ◌∷◌, map, Result, ok, panic, ◌>>=◌, if◌then◌else◌, length,
  get_elem?, set, replicate, or_panic,
}
use aom.Base.Int.{ℤ, pos, ◌+ℤ◌, wrap32, div_ℤ}
use aom.Floats.{Floats}
use aom.Utils.Slices
use aom.Utils.Slices.{max_from, min_from}

module _ (F : Floats) where
  open F use {Float64, zero_float, less, div, mul, ceil, to_int32, of_int}

  unfoldable pub steady : Float64 → Float64 → ℤ → List Float64 → List ℤ
  steady target_metric start_metric start_replica [] = []
  steady target_metric start_metric start_replica (m ∷ predict_metric) =
      (if less m zero_float
        then pos 0
        else to_int32 (ceil (mul (of_int start_replica) (div m start_metric))))
      ∷ steady target_metric start_metric start_replica predict_metric

  unfoldable pub under_threshold : Float64 → Float64 → ℤ → List Float64 → List ℤ
  under_threshold target_metric start_metric start_replica [] = []
  under_threshold target_metric start_metric start_replica (m ∷ predict_metric) =
      (if less m zero_float then pos 0 else to_int32 (ceil (div m target_metric)))
      ∷ under_threshold target_metric start_metric start_replica predict_metric

-- The inner loop of a strategy, `res[i] = f(vv, res[i])` for each entry of one row.
unfoldable pub merge_row : (ℤ → ℤ → ℤ) → ℕ → List ℤ → List ℤ → Result (List ℤ)
merge_row f i [] res = ok res
merge_row f i (vv ∷ v) res = do
  r ← or_panic (get_elem? res i)
  merge_row f (suc i) v (set res i (f vv r))

-- The outer loop.
unfoldable pub merge_rows : (ℤ → ℤ → ℤ) → List (List ℤ) → List ℤ → Result (List ℤ)
unfolding merge_row
merge_rows f [] res = ok res
merge_rows f (v ∷ replicas) res = do res' ← merge_row f 0 v res; merge_rows f replicas res'

-- `utils.Max(vv, res[i])`
abbrev pub max_of : ℤ → ℤ → ℤ
max_of vv r = max_from vv (r ∷ [])

-- `utils.Min(vv, res[i])`
abbrev pub min_of : ℤ → ℤ → ℤ
min_of vv r = min_from vv (r ∷ [])

-- `res[i] += vv`
abbrev pub add_to : ℤ → ℤ → ℤ
add_to vv r = wrap32 (r +ℤ vv)

-- The nil slice is the empty list.
unfoldable pub max_strategy : List (List ℤ) → Result (List ℤ)
unfolding merge_rows max_from
max_strategy [] = ok []
max_strategy (row ∷ replicas) = merge_rows max_of (row ∷ replicas) (replicate (length row) (pos 0))

unfoldable pub min_strategy : List (List ℤ) → Result (List ℤ)
unfolding merge_rows min_from
min_strategy [] = ok []
min_strategy (row ∷ replicas) = merge_rows min_of replicas row

unfoldable pub mean_strategy : List (List ℤ) → Result (List ℤ)
unfolding merge_rows ◌+ℤ◌ wrap32 div_ℤ
mean_strategy [] = ok []
mean_strategy (row ∷ replicas) = do
  res ← merge_rows add_to (row ∷ replicas) (replicate (length row) (pos 0))
  ok (map (λ r. div_ℤ r (length (row ∷ replicas))) res)

unfoldable pub select_max : List ℤ → Result ℤ
unfolding Slices.max
select_max replicas = Slices.max replicas
