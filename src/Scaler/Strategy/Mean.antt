-- ===== src/Scaler/Strategy/Mean.antt =====
-- `MeanStrategy` against its columns.
use aom.Base.{
  ℕ, zero, suc, ◌<◌, true, List, [], ◌∷◌, some, ◌≡◌, sym, ap, subst, ◌∙◌, ok, length, map,
  get_elem?, replicate, arith, length-replicate, ok_injective, >>=-eq-ok, length-map,
}
use aom.Base.Int.{
  ℤ, pos, ◌+ℤ◌, IsInt32, wrap32, div_ℤ, wrap32_of_IsInt32, wrap32-IsInt32, wrap32-+ℤ, +ℤ_assoc,
  +ℤ-zero, zero-+ℤ,
}
use aom.Scaler.Strategy.{merge_rows, add_to, mean_strategy}
use aom.Scaler.Strategy.Columns.{column, fits, fold, merge_rows-entry}
use aom.Scaler.Strategy.Greatest.{get_elem?-replicate}

abbrev pub sum : List ℤ → ℤ
sum [] = pos 0
sum (x ∷ xs) = x +ℤ sum xs

-- However often the running sum wraps, it is the wrapped sum.
fold-add : (r : ℤ) (xs : List ℤ) → IsInt32 r → fold add_to r xs ≡ wrap32 (r +ℤ sum xs)
fold-add r [] h = sym (rw +ℤ-zero (wrap32_of_IsInt32 r h))
fold-add r (x ∷ xs) h =
    fold-add (add_to x r) xs (wrap32-IsInt32 (r +ℤ x))
    ∙ (wrap32-+ℤ (r +ℤ x) (sum xs) ∙ ap wrap32 (+ℤ_assoc r x (sum xs)))

get_elem?-map {ℓ} :
    {A B : Type ℓ} (f : A → B) (xs : List A) (j : ℕ) {x : A}
    → get_elem? xs j ≡ some x
    → get_elem? (map f xs) j ≡ some (f x)
get_elem?-map f [] j e = cc
get_elem?-map f (x ∷ xs) zero e = cc
get_elem?-map f (x ∷ xs) (suc j) e = get_elem?-map f xs j e

-- `MeanStrategy` returns only if no row is longer than the first. Each place of its result holds
-- the sum of its column, wrapped to `int32` and divided by the number of rows, rounding toward
-- zero, also where a shorter row does not reach the place.
pub mean_strategy-mean :
    (row : List ℤ) (rows : List (List ℤ)) {out : List ℤ}
    → mean_strategy (row ∷ rows) ≡ ok out
    → (fits (length row) (row ∷ rows) ≡ true)
      × (length out ≡ length row)
      × ((j : ℕ)
          → j < length row
          → get_elem? out j
            ≡ some (div_ℤ (wrap32 (sum (column j (row ∷ rows)))) (length (row ∷ rows))))
unfolding mean_strategy
mean_strategy-mean row rows e =
    let start = replicate (length row) (pos 0) in
    let size = length-replicate (length row) (pos 0) in
    let over = λ (r : ℤ). div_ℤ r (length (row ∷ rows)) in
    let (res, merged, outs) = >>=-eq-ok (merge_rows add_to (row ∷ rows) start) _ e in
    let facts = merge_rows-entry add_to (row ∷ rows) start merged in
    let out_eq = ok_injective outs in
    (
      subst (λ n. fits n (row ∷ rows) ≡ true) size facts.0,
      ap length (sym out_eq) ∙ (length-map res over ∙ (facts.1 ∙ size)),
      λ j h.
          let col = column j (row ∷ rows) in
          let at = facts.2 j (pos 0) (get_elem?-replicate (length row) j (pos 0) h) in
          ap (λ o. get_elem? o j) (sym out_eq)
          ∙ (get_elem?-map over res j at
              ∙ ap (λ r. some (over r))
                  (fold-add (pos 0) col (omega arith) ∙ ap wrap32 (zero-+ℤ (sum col)))),
    )
