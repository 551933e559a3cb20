-- ===== src/Scaler/Strategy/Orders.antt =====
-- `MaxStrategy` does not depend on the order of its rows.
use aom.Base.{
  ℕ, true, List, [], ◌∷◌, ◌≡◌, refl, sym, ap, ◌∙◌, ok, length, replicate, All, arith,
  length-replicate,
}
use aom.Base.Int.{ℤ, pos, ≤ℤ_antisym}
use aom.Base.Shuffle.{
  Shuffle, nothing, under, exchange, after, Shuffle-sym, Shuffle-nil, Shuffle-All,
}
use aom.Utils.Slices.{max_from}
use aom.Scaler.Strategy.{max_of, max_strategy}
use aom.Scaler.Strategy.Columns.{zip_prefix, zip_rows, fits, merge_rows-eq}

max_of_comm : (x y r : ℤ) → max_of x (max_of y r) ≡ max_of y (max_of x r)
unfolding max_from
max_of_comm x y r = ground (arith, ≤ℤ_antisym x y, ≤ℤ_antisym x r, ≤ℤ_antisym y r)

zip_prefix_comm :
    (v w res : List ℤ)
    → zip_prefix max_of v (zip_prefix max_of w res) ≡ zip_prefix max_of w (zip_prefix max_of v res)
unfolding zip_prefix
zip_prefix_comm [] w res = refl
zip_prefix_comm (x ∷ v) [] res = refl
zip_prefix_comm (x ∷ v) (y ∷ w) [] = refl
zip_prefix_comm (x ∷ v) (y ∷ w) (r ∷ res) =
    ground (arith, max_of_comm x y r, zip_prefix_comm v w res)

zip_rows-Shuffle :
    {rows rows' : List (List ℤ)}
    → Shuffle rows rows'
    → (res : List ℤ) → zip_rows max_of rows res ≡ zip_rows max_of rows' res
unfolding zip_rows
zip_rows-Shuffle nothing res = refl
zip_rows-Shuffle (under v p) res = zip_rows-Shuffle p (zip_prefix max_of v res)
zip_rows-Shuffle (exchange v w rows) res = ap (zip_rows max_of rows) (zip_prefix_comm w v res)
zip_rows-Shuffle (after p q) res = zip_rows-Shuffle p res ∙ zip_rows-Shuffle q res

-- Rows of one length fit.
fits-All : (n : ℕ) (rows : List (List ℤ)) → All (λ v. length v ≡ n) rows → fits n rows ≡ true
fits-All n [] a = refl
fits-All n (v ∷ rows) (e, a) = ground (arith, fits-All n rows a)

max_strategy-eq :
    (n : ℕ) (row : List ℤ) (rows : List (List ℤ))
    → All (λ v. length v ≡ n) (row ∷ rows)
    → max_strategy (row ∷ rows) ≡ ok (zip_rows max_of (row ∷ rows) (replicate n (pos 0)))
unfolding max_strategy
max_strategy-eq n row rows (e, a) = rw (e) (
    merge_rows-eq max_of (row ∷ rows) (replicate n (pos 0))
    ∙ ground (arith, length-replicate n (pos 0), fits-All n (row ∷ rows) (e, a)))

-- If all rows have one length, `MaxStrategy` gives the same result for every order of the rows.
pub max_strategy-Shuffle :
    (n : ℕ) (rows rows' : List (List ℤ))
    → All (λ v. length v ≡ n) rows
    → Shuffle rows rows'
    → max_strategy rows ≡ max_strategy rows'
max_strategy-Shuffle n [] [] a p = refl
max_strategy-Shuffle n [] (v ∷ vs) a p = let none_left = Shuffle-nil (Shuffle-sym p) refl in cc
max_strategy-Shuffle n (v ∷ vs) [] a p = let none_left = Shuffle-nil p refl in cc
max_strategy-Shuffle n (v ∷ vs) (w ∷ ws) a p =
    max_strategy-eq n v vs a
    ∙ (ap ok (zip_rows-Shuffle p (replicate n (pos 0)))
        ∙ sym (max_strategy-eq n w ws (Shuffle-All (λ (v : List ℤ). length v ≡ n) p a)))
