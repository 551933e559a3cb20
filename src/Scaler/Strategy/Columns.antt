-- ===== src/Scaler/Strategy/Columns.antt =====
-- The strategies, column by column: when they return, and what stands at each place.
use aom.Base.{
  ℕ, zero, suc, ◌≤◌, Bool, true, ◌&&◌, List, [], ◌∷◌, ◌++◌, append_assoc, none, some, ◌≡◌, inl, inr,
  refl, sym, ap, ◌∙◌, ok, panic, if◌then◌else◌, leb, length, replicate, map, get_elem?, set, arith,
  ok_injective, Option-cases, Bool-cases, length-append,
}
use aom.Base.Int.{ℤ}
use aom.Scaler.Strategy.{merge_row, merge_rows}

-- The entries at place `j` of the rows that reach it.
abbrev pub column : ℕ → List (List ℤ) → List ℤ
column j [] = []
column j (v ∷ rows) =
    let rest = column j rows in elim (get_elem? v j) [ none ↦ rest | some x ↦ x ∷ rest ]

column-skip :
    (j : ℕ) (v : List ℤ) (rows : List (List ℤ))
    → get_elem? v j ≡ none
    → column j (v ∷ rows) ≡ column j rows
column-skip j v rows h = rw (h, column)

pub column-keep :
    (j : ℕ) (v : List ℤ) (rows : List (List ℤ)) {x : ℤ}
    → get_elem? v j ≡ some x
    → column j (v ∷ rows) ≡ x ∷ column j rows
column-keep j v rows h = rw (h, column)

-- No row is longer than `n`.
abbrev pub fits : ℕ → List (List ℤ) → Bool
fits n [] = true
fits n (v ∷ rows) = leb (length v) n && fits n rows

module _ (f : ℤ → ℤ → ℤ) where
  -- One row merged into the result, with no index.
  unfoldable pub zip_prefix : List ℤ → List ℤ → List ℤ
  zip_prefix [] res = res
  zip_prefix (x ∷ v) [] = []
  zip_prefix (x ∷ v) (r ∷ res) = f x r ∷ zip_prefix v res

  unfoldable pub zip_rows : List (List ℤ) → List ℤ → List ℤ
  unfolding zip_prefix
  zip_rows [] res = res
  zip_rows (v ∷ rows) res = zip_rows rows (zip_prefix v res)

  abbrev pub fold : ℤ → List ℤ → ℤ
  fold r [] = r
  fold r (x ∷ xs) = fold (f x r) xs

  -- One row alone.
  pub zip_rows_one :
      (v : List ℤ) (a : ℤ) → zip_rows (v ∷ []) (replicate (length v) a) ≡ map (λ x. f x a) v
  unfolding zip_rows zip_prefix
  zip_rows_one [] a = refl
  zip_rows_one (x ∷ v) a = ap (◌∷◌ (f x a)) (zip_rows_one v a)

  get_elem?-length :
      (pre : List ℤ) (r : ℤ) (res : List ℤ) → get_elem? (pre ++ r ∷ res) (length pre) ≡ some r
  get_elem?-length [] r res = refl
  get_elem?-length (p ∷ pre) r res = get_elem?-length pre r res

  get_elem?-length_end : (pre : List ℤ) → get_elem? (pre ++ []) (length pre) ≡ none
  get_elem?-length_end [] = refl
  get_elem?-length_end (p ∷ pre) = get_elem?-length_end pre

  set-length :
      (pre : List ℤ) (r y : ℤ) (res : List ℤ)
      → set (pre ++ r ∷ res) (length pre) y ≡ (pre ++ y ∷ []) ++ res
  set-length [] r y res = refl
  set-length (p ∷ pre) r y res = ap (◌∷◌ p) (set-length pre r y res)

  merge_row-eq :
      (v pre res : List ℤ)
      → merge_row f (length pre) v (pre ++ res)
        ≡ (if leb (length v) (length res) then ok (pre ++ zip_prefix v res) else panic)
  unfolding merge_row zip_prefix
  merge_row-eq [] pre res = ground arith
  merge_row-eq (x ∷ v) pre [] = rw (get_elem?-length_end pre) (ground arith)
  merge_row-eq (x ∷ v) pre (r ∷ res) =
      rw (get_elem?-length pre r res, set-length pre r (f x r) res)
        (ground (
          arith,
          merge_row-eq v (pre ++ f x r ∷ []) res,
          length-append pre (f x r ∷ []),
          append_assoc pre (f x r ∷ []) (zip_prefix v res),
        ))

  length-zip_prefix :
      (v res : List ℤ) → length v ≤ length res → length (zip_prefix v res) ≡ length res
  unfolding zip_prefix
  length-zip_prefix [] res h = refl
  length-zip_prefix (x ∷ v) [] h = refl
  length-zip_prefix (x ∷ v) (r ∷ res) h = omega (arith, length-zip_prefix v res)

  pub merge_rows-eq :
      (rows : List (List ℤ)) (res : List ℤ)
      → merge_rows f rows res ≡ (if fits (length res) rows then ok (zip_rows rows res) else panic)
  unfolding merge_rows zip_rows
  merge_rows-eq [] res = refl
  merge_rows-eq (v ∷ rows) res =
      ground (
        arith,
        merge_row-eq v [] res,
        length-zip_prefix v res,
        merge_rows-eq rows (zip_prefix v res),
      )

  zip_prefix-entry :
      (v res : List ℤ) (j : ℕ) {r : ℤ}
      → get_elem? res j ≡ some r
      → get_elem? (zip_prefix v res) j ≡ some (elim (get_elem? v j) [ none ↦ r | some x ↦ f x r ])
  unfolding zip_prefix
  zip_prefix-entry [] res j e = e
  zip_prefix-entry (x ∷ v) [] j e = cc
  zip_prefix-entry (x ∷ v) (r ∷ res) zero e = ground arith
  zip_prefix-entry (x ∷ v) (r ∷ res) (suc j) e = zip_prefix-entry v res j e

  -- Place `j` is the fold of its column.
  zip_rows-entry :
      (rows : List (List ℤ)) (res : List ℤ) (j : ℕ) {r : ℤ}
      → get_elem? res j ≡ some r
      → get_elem? (zip_rows rows res) j ≡ some (fold r (column j rows))
  unfolding zip_rows
  zip_rows-entry [] res j e = e
  zip_rows-entry (v ∷ rows) res j {r} e = elim (Option-cases (get_elem? v j)) [
    | inl h ↦
        zip_rows-entry rows (zip_prefix v res) j (rw h at (zip_prefix-entry v res j e))
        ∙ ap (λ c. some (fold r c)) (sym (column-skip j v rows h))
    | inr (x, h) ↦
        zip_rows-entry rows (zip_prefix v res) j (rw h at (zip_prefix-entry v res j e))
        ∙ ap (λ c. some (fold r c)) (sym (column-keep j v rows h))
  ]

  length-zip_rows :
      (rows : List (List ℤ)) (res : List ℤ)
      → fits (length res) rows ≡ true
      → length (zip_rows rows res) ≡ length res
  unfolding zip_rows
  length-zip_rows [] res h = refl
  length-zip_rows (v ∷ rows) res h =
      ground (arith, length-zip_prefix v res, length-zip_rows rows (zip_prefix v res))

  -- The three facts together, from a result.
  pub merge_rows-entry :
      (rows : List (List ℤ)) (res : List ℤ) {out : List ℤ}
      → merge_rows f rows res ≡ ok out
      → (fits (length res) rows ≡ true)
        × (length out ≡ length res)
        × ((j : ℕ) (r : ℤ)
            → get_elem? res j ≡ some r
            → get_elem? out j ≡ some (fold r (column j rows)))
  merge_rows-entry rows res e = elim (Bool-cases (fits (length res) rows)) [
    | inl h ↦
        let out_eq = ok_injective (sym (rw h at (merge_rows-eq rows res)) ∙ e) in
        (
          h,
          ap length (sym out_eq) ∙ length-zip_rows rows res h,
          λ j r g. ap (λ o. get_elem? o j) (sym out_eq) ∙ zip_rows-entry rows res j g,
        )
    | inr h ↦ absurd (ground (arith, merge_rows-eq rows res))
  ]
