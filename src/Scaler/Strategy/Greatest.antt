-- ===== src/Scaler/Strategy/Greatest.antt =====
-- `MaxStrategy`, `MinStrategy` and `MeanStrategy` against their columns.
use aom.Base.{
  ℕ, zero, suc, ◌<◌, true, false, List, [], ◌∷◌, some, ◌≡◌, refl, sym, ap, subst, ◌∙◌, ok, panic,
  if◌then◌else◌, length, get_elem?, replicate, In, All, arith, length-replicate, get_elem?_of_lt,
}
use aom.Base.Int.{ℤ, pos, ◌≤ℤ◌, ltb_ℤ, ≤ℤ_antisym}
use aom.Utils.Slices.{max_from, min_from}
use aom.Utils.Slices.Laws.{max_from-ge, max_from-In, min_from-le, min_from-In}
use aom.Scaler.Strategy.{merge_rows, max_of, min_of, max_strategy, min_strategy}
use aom.Scaler.Strategy.Columns.{
  column, column-keep, fits, fold, zip_rows, merge_rows-eq, merge_rows-entry,
}

max_of_flip : (x r : ℤ) → max_of x r ≡ (if ltb_ℤ r x then x else r)
unfolding max_from
max_of_flip x r = ground (arith, ≤ℤ_antisym x r)

min_of_flip : (x r : ℤ) → min_of x r ≡ (if ltb_ℤ x r then x else r)
unfolding min_from
min_of_flip x r = ground (arith, ≤ℤ_antisym x r)

fold-max : (r : ℤ) (xs : List ℤ) → fold max_of r xs ≡ max_from r xs
unfolding max_from
fold-max r [] = refl
fold-max r (x ∷ xs) = fold-max (max_of x r) xs ∙ ap (λ m. max_from m xs) (max_of_flip x r)

fold-min : (r : ℤ) (xs : List ℤ) → fold min_of r xs ≡ min_from r xs
unfolding min_from
fold-min r [] = refl
fold-min r (x ∷ xs) = fold-min (min_of x r) xs ∙ ap (λ m. min_from m xs) (min_of_flip x r)

pub get_elem?-replicate {ℓ} :
    {A : Type ℓ} (n j : ℕ) (a : A) → j < n → get_elem? (replicate n a) j ≡ some a
get_elem?-replicate zero j a h = elim h [ ]
get_elem?-replicate (suc n) zero a h = refl
get_elem?-replicate (suc n) (suc j) a h = get_elem?-replicate n j a (omega arith)

abbrev pub IsGreatest : ℤ → List ℤ → Type 0
IsGreatest m xs = In m xs × All (λ x. x ≤ℤ m) xs

abbrev pub IsLeast : ℤ → List ℤ → Type 0
IsLeast m xs = In m xs × All (λ x. m ≤ℤ x) xs

-- `MaxStrategy` returns only if no row is longer than the first. Its result has the length of the
-- first row, and each place holds the greatest of 0 and the entries of its column.
pub max_strategy-IsGreatest :
    (row : List ℤ) (rows : List (List ℤ)) {out : List ℤ}
    → max_strategy (row ∷ rows) ≡ ok out
    → (fits (length row) (row ∷ rows) ≡ true)
      × (length out ≡ length row)
      × ((j : ℕ)
          → j < length row
          → (m : ℤ) × (get_elem? out j ≡ some m) × IsGreatest m (pos 0 ∷ column j (row ∷ rows)))
unfolding max_strategy
max_strategy-IsGreatest row rows e =
    let start = replicate (length row) (pos 0) in
    let facts = merge_rows-entry max_of (row ∷ rows) start e in
    let size = length-replicate (length row) (pos 0) in
    (
      subst (λ n. fits n (row ∷ rows) ≡ true) size facts.0,
      facts.1 ∙ size,
      λ j h.
          let col = column j (row ∷ rows) in
          (
            max_from (pos 0) col,
            facts.2 j (pos 0) (get_elem?-replicate (length row) j (pos 0) h)
                ∙ ap some (fold-max (pos 0) col),
            (max_from-In (pos 0) col, max_from-ge (pos 0) col),
          ),
    )

-- `MinStrategy` returns only if no later row is longer than the first. Its result has the length
-- of the first row, and each place holds the least entry of its column.
pub min_strategy-IsLeast :
    (row : List ℤ) (rows : List (List ℤ)) {out : List ℤ}
    → min_strategy (row ∷ rows) ≡ ok out
    → (fits (length row) rows ≡ true)
      × (length out ≡ length row)
      × ((j : ℕ)
          → j < length row
          → (m : ℤ) × (get_elem? out j ≡ some m) × IsLeast m (column j (row ∷ rows)))
unfolding min_strategy
min_strategy-IsLeast row rows e =
    let facts = merge_rows-entry min_of rows row e in
    (
      facts.0,
      facts.1,
      λ j h.
          let col = column j rows in
          let (r, at) = get_elem?_of_lt row j h in
          (
            min_from r col,
            facts.2 j r at ∙ ap some (fold-min r col),
            subst (IsLeast (min_from r col)) (sym (column-keep j row rows at))
                (min_from-In r col, min_from-le r col),
          ),
    )

-- `MaxStrategy` returns when no row is longer than the first, and panics on an index out of range
-- when one is.
pub max_strategy-returns :
    (row : List ℤ) (rows : List (List ℤ))
    → (fits (length row) (row ∷ rows) ≡ true
        → (out : List ℤ) × (max_strategy (row ∷ rows) ≡ ok out))
      × (fits (length row) (row ∷ rows) ≡ false → max_strategy (row ∷ rows) ≡ panic)
unfolding max_strategy
max_strategy-returns row rows =
    let start = replicate (length row) (pos 0) in
    let law =
      subst
        (λ n.
          merge_rows max_of (row ∷ rows) start
          ≡ (if fits n (row ∷ rows) then ok (zip_rows max_of (row ∷ rows) start) else panic))
        (length-replicate (length row) (pos 0)) (merge_rows-eq max_of (row ∷ rows) start) in
    (
      λ h. (
        zip_rows max_of (row ∷ rows) start,
        law ∙ ap (λ b. if b then ok (zip_rows max_of (row ∷ rows) start) else panic) h,
      ),
      λ h. law ∙ ap (λ b. if b then ok (zip_rows max_of (row ∷ rows) start) else panic) h,
    )
