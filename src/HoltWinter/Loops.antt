-- ===== src/HoltWinter/Loops.antt =====
-- The loops of `tripleExponentialSmoothing` read within their slices.
use aom.Base.{
  ℕ, zero, suc, ◌+◌, ◌*◌, ◌/◌, ◌%◌, ◌<◌, ◌≤◌, List, [], ◌∷◌, some, Result, ok, ◌≡◌, refl, sym, ap,
  subst, ◌∙◌, length, get_elem?, arith, get_elem?_of_lt, length-set, leb, inl, inr, Bool-cases,
}
use aom.Base.Int.{ℤ, pos, ◌+ℤ◌, pos_part}
use aom.Floats.{Floats}
use aom.HoltWinter.{
  HoltWinter, Smoothing, trend_loop, initial_trend, magnitude, sum_loop, averages, deviation_loop,
  seasonals_loop, initial_seasonal_components, smoothing_step, smoothing_loop, rounds,
  triple_exponential_smoothing,
}
use native.Mathlib.Nat.{mod-lt, div-mul-le_self}

-- The call returns a value.
unfoldable pub Returns : {A : Type 0} → Result A → Type 0
Returns {A} r = (a : A) × (r ≡ ok a)

-- The call returns a list of `n` entries.
unfoldable pub ReturnsList : {A : Type 0} → ℕ → Result (List A) → Type 0
ReturnsList {A} n r = (xs : List A) × (r ≡ ok xs) × (length xs ≡ n)

pub pos_part-+ℤ : (a b : ℕ) → pos_part (pos a +ℤ pos b) ≡ a + b
unfolding ◌+ℤ◌
pos_part-+ℤ a b = ground arith

module _ (F : Floats) where
  open F use {Float64}

  trend_loop-Returns :
      (slen : ℕ) (series : List Float64) (left i : ℕ) (sum : Float64)
      → i + left + slen ≤ length series
      → Returns (trend_loop F slen series left i sum)
  unfolding trend_loop Returns
  trend_loop-Returns slen series zero i sum h = (sum, refl)
  trend_loop-Returns slen series (suc left) i sum h =
      let (x, e) = get_elem?_of_lt series (i + slen) (omega arith) in
      let (y, f) = get_elem?_of_lt series i (omega arith) in
      rw (e, f) (trend_loop-Returns slen series left (suc i) _ (omega arith))

  sum_loop-Returns :
      (series : List Float64) (left i : ℕ) (sum : Float64)
      → i + left ≤ length series
      → Returns (sum_loop F series left i sum)
  unfolding sum_loop Returns
  sum_loop-Returns series zero i sum h = (sum, refl)
  sum_loop-Returns series (suc left) i sum h =
      let (x, e) = get_elem?_of_lt series i (omega arith) in
      rw (e) (sum_loop-Returns series left (suc i) _ (omega arith))

  averages-ReturnsList :
      (slen : ℕ) (series : List Float64) (left j : ℕ)
      → slen * j + slen * left ≤ length series
      → ReturnsList left (averages F slen series left j)
  unfolding averages ReturnsList Returns
  averages-ReturnsList slen series zero j h = ([], refl, refl)
  averages-ReturnsList slen series (suc left) j h =
      let (x, e) = sum_loop-Returns series slen (slen * j) F.zero_float (omega arith) in
      let (rest, f, n) = averages-ReturnsList slen series left (suc j) (omega arith) in
      rw (e, f) (_, refl, ap suc n)

  deviation_loop-Returns :
      (slen : ℕ) (series : List Float64) (i : ℕ) (averages : List Float64) (j : ℕ) (sum : Float64)
      → i < slen
      → slen * j + slen * length averages ≤ length series
      → Returns (deviation_loop F slen series i averages j sum)
  unfolding deviation_loop Returns
  deviation_loop-Returns slen series i [] j sum h k = (sum, refl)
  deviation_loop-Returns slen series i (a ∷ averages) j sum h k =
      let (x, e) = get_elem?_of_lt series (slen * j + i) (omega arith) in
      rw (e) (deviation_loop-Returns slen series i averages (suc j) _ h (omega arith))

  seasonals_loop-ReturnsList :
      (slen : ℕ) (series avgs : List Float64) (left i : ℕ)
      → i + left ≤ slen
      → slen * length avgs ≤ length series
      → ReturnsList left (seasonals_loop F slen series avgs left i)
  unfolding seasonals_loop ReturnsList Returns
  seasonals_loop-ReturnsList slen series avgs zero i h k = ([], refl, refl)
  seasonals_loop-ReturnsList slen series avgs (suc left) i h k =
      let (x, e) =
        deviation_loop-Returns slen series i avgs 0 F.zero_float (omega arith) (omega arith) in
      let (rest, f, n) = seasonals_loop-ReturnsList slen series avgs left (suc i) (omega arith) k in
      rw (e, f) (_, refl, ap suc n)

  smoothing_step-Returns :
      (p : HoltWinter F) (size : ℕ) (series : List Float64) (i : ℕ) (s : Smoothing F)
      → 0 < size
      → length s.seasonals ≡ size
      → (next : Smoothing F) × (value : Float64) × (smoothing_step F p size series i s
          ≡ ok (next, value))
        × (length next.seasonals ≡ size)
  unfolding smoothing_step
  smoothing_step-Returns p size series i s h k =
      let (x, e) = get_elem?_of_lt s.seasonals (i % size) (omega (arith, mod-lt i h, k)) in
      elim (Bool-cases (leb (length series) i)) [
        | inl past ↦ rw (past, e, smoothing_step) (s, _, refl, k)
        | inr within ↦
            let inside : i < length series = ground arith in
            let (y, f) = get_elem?_of_lt series i inside in
            rw (within, e, f, smoothing_step) (_, _, refl, length-set s.seasonals (i % size) _ ∙ k)
      ]

  smoothing_loop-ReturnsList :
      (p : HoltWinter F) (size : ℕ) (series : List Float64) (left i : ℕ) (s : Smoothing F)
      → 0 < size
      → length s.seasonals ≡ size
      → ReturnsList left (smoothing_loop F p size series left i s)
  unfolding smoothing_loop ReturnsList
  smoothing_loop-ReturnsList p size series zero i s h k = ([], refl, refl)
  smoothing_loop-ReturnsList p size series (suc left) i s h k =
      let (next, value, e, m) = smoothing_step-Returns p size series i s h k in
      let (rest, f, n) = smoothing_loop-ReturnsList p size series left (suc i) next h m in
      rw (e, f) (_, refl, ap suc n)

  pub magnitude_pos : (n : ℕ) → magnitude F (pos n) ≡ n
  magnitude_pos n = omega arith

  rounds-Returns :
      (p : HoltWinter F) (series : List Float64) (first : Float64) (left : ℕ) (s : Smoothing F)
      {k : ℕ}
      → 0 < left
      → magnitude F p.slen ≡ suc k
      → length s.seasonals ≡ suc k
      → (rest : List Float64) × (rounds F p series first left s ≡ ok (first ∷ rest))
        × (suc (length rest) ≡ left)
  unfolding rounds ReturnsList
  rounds-Returns p series first zero s h m n = elim h [ ]
  rounds-Returns p series first (suc left) s h m n =
      let (rest, e, r) =
        smoothing_loop-ReturnsList p (magnitude F p.slen) series left 1 s (omega (arith, m))
          (n ∙ sym m) in
      rw (e) (rest, refl, ap suc r)

  pub initial_seasonal_components-ReturnsList :
      (a : ℤ) (series : List Float64) (k : ℕ)
      → a ≡ pos (suc k)
      → ReturnsList (suc k) (initial_seasonal_components F a series)
  unfolding initial_seasonal_components ReturnsList
  initial_seasonal_components-ReturnsList a series k h =
      let whole = div-mul-le_self (length series) (suc k) in
      let (avgs, e, n) =
        averages-ReturnsList (suc k) series (length series / suc k) 0 (omega (arith, whole)) in
      let (seasonals, f, m) =
        seasonals_loop-ReturnsList (suc k) series avgs (suc k) 0 (omega arith)
          (subst (λ c. suc k * c ≤ length series) (sym n) (omega (arith, whole))) in
      (seasonals, ap (λ b. initial_seasonal_components F b series) h ∙ rw (e) f, m)

  pub initial_trend-Returns :
      (a : ℤ) (series : List Float64) (k : ℕ)
      → a ≡ pos (suc k)
      → suc k + suc k ≤ length series
      → Returns (initial_trend F a series)
  unfolding initial_trend Returns
  initial_trend-Returns a series k h n =
      let (sum, e) = trend_loop-Returns (suc k) series (suc k) 0 F.zero_float (omega arith) in
      (F.div sum (F.of_int (pos (suc k))), ap (λ b. initial_trend F b series) h ∙ rw (e) refl)

  -- The whole from its parts.
  pub assemble :
      (p : HoltWinter F) (series : List Float64) {seasonals rest : List Float64}
      {first trend : Float64}
      → initial_seasonal_components F p.slen series ≡ ok seasonals
      → get_elem? series 0 ≡ some first
      → initial_trend F p.slen series ≡ ok trend
      → rounds F p series first
          (pos_part (pos (length series) +ℤ p.look_forward))
          (record { smooth = first; trend = trend; seasonals = seasonals })
        ≡ ok (first ∷ rest)
      → triple_exponential_smoothing F p series ≡ ok (first ∷ rest)
  unfolding triple_exponential_smoothing
  assemble p series e₁ e₂ e₃ e₄ = rw (e₁, e₂, e₃) e₄

  -- For a season length above 0 and at least two seasons of samples, `tripleExponentialSmoothing`
  -- returns: every index is within its slice. For a look ahead of `ahead` samples, at least 0, the
  -- result has one entry for each sample and one for each sample ahead, and its first entry is the
  -- first sample itself.
  pub triple_exponential_smoothing-Returns :
      (p : HoltWinter F) (series : List Float64) (season ahead : ℕ)
      → 0 < season
      → p.slen ≡ pos season
      → p.look_forward ≡ pos ahead
      → season + season ≤ length series
      → (first : Float64) × (rest : List Float64) × (triple_exponential_smoothing F p series
          ≡ ok (first ∷ rest))
        × (suc (length rest) ≡ length series + ahead)
        × (get_elem? series 0 ≡ some first)
  unfolding Returns ReturnsList
  triple_exponential_smoothing-Returns p series zero ahead h e f n = elim h [ ]
  triple_exponential_smoothing-Returns p series (suc k) ahead h e f n =
      let (seasonals, e₁, n₁) = initial_seasonal_components-ReturnsList p.slen series k e in
      let (first, e₂) = get_elem?_of_lt series 0 (omega arith) in
      let (trend, e₃) = initial_trend-Returns p.slen series k e n in
      let left = pos_part (pos (length series) +ℤ p.look_forward) in
      let size : left ≡ length series + ahead =
        ap (λ b. pos_part (pos (length series) +ℤ b)) f ∙ pos_part-+ℤ (length series) ahead in
      let (rest, e₄, n₄) =
        rounds-Returns p series first left
          (record { smooth = first; trend = trend; seasonals = seasonals }) (omega (arith, size))
          (ap (magnitude F) e ∙ magnitude_pos (suc k)) n₁ in
      (first, rest, assemble p series e₁ e₂ e₃ e₄, n₄ ∙ size, e₂)
