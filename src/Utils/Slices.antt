-- ===== src/Utils/Slices.antt =====
-- utils/common.go: `Max`, `Min`, `MulSlice` and `AddSlice`, at `int32`.
pub mod Laws
pub mod Diagonal
use aom.Base.{
  ℕ, zero, suc, Bool, List, [], ◌∷◌, map, Option, none, some, Result, ok, err, panic, ◌>>=◌,
  if◌then◌else◌, length, get_elem?, set, replicate, or_panic,
}
use aom.Base.Int.{ℤ, pos, ◌+ℤ◌, ◌*ℤ◌, ltb_ℤ, wrap32}

-- The loop of `Max` over the rest of its arguments.
unfoldable pub max_from : ℤ → List ℤ → ℤ
max_from m [] = m
max_from m (x ∷ xs) = max_from (if ltb_ℤ m x then x else m) xs

unfoldable pub max : List ℤ → Result ℤ
unfolding max_from
max [] = panic
max (x ∷ xs) = ok (max_from x xs)

unfoldable pub min_from : ℤ → List ℤ → ℤ
min_from m [] = m
min_from m (x ∷ xs) = min_from (if ltb_ℤ x m then x else m) xs

unfoldable pub min : List ℤ → Result ℤ
unfolding min_from
min [] = panic
min (x ∷ xs) = ok (min_from x xs)

-- It writes the products back into the slice.
unfoldable pub mul_slice : ℤ → List ℤ → List ℤ
unfolding ◌*ℤ◌ wrap32
mul_slice k [] = []
mul_slice k (n ∷ nums) = wrap32 (n *ℤ k) ∷ mul_slice k nums

-- The loop of `AddSlice` from row `i` on: `res[i] += num[i]`.
unfoldable pub add_rows : ℕ → List (List ℤ) → List ℤ → Result (List ℤ)
unfolding ◌+ℤ◌ wrap32
add_rows i [] res = ok res
add_rows i (num ∷ nums) res = do
  r ← or_panic (get_elem? res i)
  n ← or_panic (get_elem? num i)
  add_rows (suc i) nums (set res i (wrap32 (r +ℤ n)))

unfoldable pub add_slice : List (List ℤ) → Result (List ℤ)
unfolding add_rows
add_slice [] = panic
add_slice (num ∷ nums) = add_rows 0 (num ∷ nums) (replicate (length num) (pos 0))
