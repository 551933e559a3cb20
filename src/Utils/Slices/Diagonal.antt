-- ===== src/Utils/Slices/Diagonal.antt =====
-- `AddSlice` adds up a diagonal: entry `i` of row `i`, and no other.
use aom.Base.{
  ℕ, zero, suc, ◌≤◌, ◌<◌, List, [], ◌∷◌, Option, none, some, ◌≡◌, inl, inr, refl, ok, if◌then◌else◌,
  ◌==◌, ltb, length, get_elem?, set, replicate, All, arith, Option-cases, ok_injective, length-set,
  length-replicate, get_elem?-set, get_elem?-lt,
}
use aom.Base.Int.{ℤ, pos, ◌+ℤ◌, wrap32, wrap32_of_IsInt32, IsInt32, zero-+ℤ}
use aom.Utils.Slices.{add_rows, add_slice}

abbrev pub or_zero : Option ℤ → ℤ
or_zero (some a) = a
or_zero none = pos 0

-- Entry `j` of the row that stands `j - i` rows down.
abbrev pub entry : ℕ → List (List ℤ) → ℕ → ℤ
entry i [] j = pos 0
entry i (num ∷ nums) j =
    let rest = entry (suc i) nums j in if i == j then or_zero (get_elem? num j) else rest

get_elem?-replicate_zero : (n j : ℕ) → or_zero (get_elem? (replicate n (pos 0)) j) ≡ pos 0
get_elem?-replicate_zero zero j = refl
get_elem?-replicate_zero (suc n) zero = refl
get_elem?-replicate_zero (suc n) (suc j) = get_elem?-replicate_zero n j

entry_before : (i : ℕ) (nums : List (List ℤ)) (j : ℕ) → j < i → entry i nums j ≡ pos 0
entry_before i [] j h = refl
entry_before i (num ∷ nums) j h = ground (arith, entry_before (suc i) nums j (omega arith))

In_bounds : (xs : List ℤ) (i : ℕ) {v : ℤ} → All IsInt32 xs → get_elem? xs i ≡ some v → IsInt32 v
In_bounds [] i h e = cc
In_bounds (x ∷ xs) zero h e = ground arith
In_bounds (x ∷ xs) (suc i) h e = In_bounds xs i h.1 e

wrap32_add_zero : (r n : ℤ) → r ≡ pos 0 → IsInt32 n → wrap32 (r +ℤ n) ≡ n
wrap32_add_zero r n e h = rw (e, zero-+ℤ) (wrap32_of_IsInt32 n h)

-- The loop from row `i` on, seen at a place `j` that is still zero if it lies ahead.
add_rows-step :
    (i : ℕ) (num : List ℤ) (nums : List (List ℤ)) (res : List ℤ) {out : List ℤ} (j : ℕ) (r n : ℤ)
    → ((res' : List ℤ)
        → (suc i ≤ j → or_zero (get_elem? res' j) ≡ pos 0)
        → add_rows (suc i) nums res' ≡ ok out
        → (length out ≡ length res')
          × (or_zero (get_elem? out j)
              ≡ (if ltb j (suc i) then or_zero (get_elem? res' j) else entry (suc i) nums j)))
    → (i ≤ j → or_zero (get_elem? res j) ≡ pos 0)
    → IsInt32 n
    → get_elem? res i ≡ some r
    → get_elem? num i ≡ some n
    → add_rows (suc i) nums (set res i (wrap32 (r +ℤ n))) ≡ ok out
    → (length out ≡ length res)
      × (or_zero (get_elem? out j)
          ≡ (if ltb j i then or_zero (get_elem? res j) else entry i (num ∷ nums) j))
add_rows-step i num nums res j r n next fresh int er en e =
    let hit = wrap32_add_zero r n in
    let moved = get_elem?-set res i j (wrap32 (r +ℤ n)) (get_elem?-lt res i er) in
    let rest = next (set res i (wrap32 (r +ℤ n))) in
    let size = length-set res i (wrap32 (r +ℤ n)) in
    let past = entry_before (suc i) nums j in ground (arith, hit, moved, rest, size, past)

add_rows-entry :
    (i : ℕ) (nums : List (List ℤ)) (res : List ℤ) {out : List ℤ} (j : ℕ)
    → All (All IsInt32) nums
    → (i ≤ j → or_zero (get_elem? res j) ≡ pos 0)
    → add_rows i nums res ≡ ok out
    → (length out ≡ length res)
      × (or_zero (get_elem? out j)
          ≡ (if ltb j i then or_zero (get_elem? res j) else entry i nums j))
unfolding add_rows
add_rows-entry i [] res j ints fresh e = ground (arith, ok_injective e)
add_rows-entry i (num ∷ nums) res j ints fresh e = elim (Option-cases (get_elem? res i)) [
  | inl er ↦ absurd (ground (arith, e))
  | inr (r, er) ↦ elim (Option-cases (get_elem? num i)) [
    | inl en ↦ absurd (ground (arith, e))
    | inr (n, en) ↦
        add_rows-step i num nums res j r n
          (λ res' f g. add_rows-entry (suc i) nums res' j ints.1 f g) fresh
          (In_bounds num i ints.0 en) er en (ground (arith, e))
  ]
]

-- When `AddSlice` returns, its result has the length of the first row, and its entry `j` is entry
-- `j` of row `j` where there is such a row, and 0 behind the last row: what the rows hold off the
-- diagonal is not added.
pub add_slice-entry :
    (num : List ℤ) (nums : List (List ℤ)) {out : List ℤ} (j : ℕ)
    → All (All IsInt32) (num ∷ nums)
    → add_slice (num ∷ nums) ≡ ok out
    → (length out ≡ length num) × (or_zero (get_elem? out j) ≡ entry 0 (num ∷ nums) j)
unfolding add_slice
add_slice-entry num nums j ints e =
    let start = replicate (length num) (pos 0) in
    let loop =
      add_rows-entry 0 (num ∷ nums) start j ints (λ _. get_elem?-replicate_zero (length num) j) e in
    ground (arith, loop, length-replicate (length num) (pos 0))
