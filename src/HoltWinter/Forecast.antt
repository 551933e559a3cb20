-- ===== src/HoltWinter/Forecast.antt =====
-- The result of `tripleExponentialSmoothing` by the recurrences.
use aom.Base.{
  ℕ, zero, suc, ◌+◌, ◌<◌, ◌≤◌, List, ◌∷◌, ◌++◌, some, none, ok, ◌≡◌, refl, ap, ◌∙◌, length,
  get_elem?, arith, get_elem?_of_lt,
}
use aom.Base.Int.{pos, ◌+ℤ◌, pos_part}
use aom.Floats.{Floats}
use aom.HoltWinter.Reference.{Level, level_after, fitted, forecasts, Holds, From, sample-loop}
use aom.HoltWinter.{
  HoltWinter, initial_trend, magnitude, initial_seasonal_components, rounds,
  triple_exponential_smoothing,
}
use aom.HoltWinter.Loops.{
  Returns, ReturnsList, initial_seasonal_components-ReturnsList, initial_trend-Returns, assemble,
  magnitude_pos, pos_part-+ℤ,
}

module _ (F : Floats) where
  open F use {Float64, zero_float}

  -- The level at the start: its seasonal components come from a list by place.
  abbrev pub level : Float64 → Float64 → List Float64 → Level F
  level first trend seasonals = record {
    smooth = first;
    trend = trend;
    season = λ j. elim (get_elem? seasonals j) [ none ↦ zero_float | some x ↦ x ];
  }

  level-Holds :
      (p : HoltWinter F) (size : ℕ) (first trend : Float64) (seasonals : List Float64)
      → length seasonals ≡ size
      → Holds F p size
          (record { smooth = first; trend = trend; seasonals = seasonals })
          (level first trend seasonals)
  level-Holds p size first trend seasonals e = record {
    same_smooth = refl;
    same_trend = refl;
    same_season =
        λ j h. let (x, f) = get_elem?_of_lt seasonals j (omega (arith, e)) in rw (f, level) refl;
    same_size = e;
  }

  rounds-eq :
      (p : HoltWinter F) (first trend : Float64) (tail seasonals : List Float64) (k ahead : ℕ)
      {left : ℕ}
      → magnitude F p.slen ≡ suc k
      → length seasonals ≡ suc k
      → left ≡ suc (length tail + ahead)
      → let start = level first trend seasonals in
        rounds F p
          (first ∷ tail)
          first
          left
          (record { smooth = first; trend = trend; seasonals = seasonals })
        ≡ ok (
            first
            ∷ (fitted F p (suc k) 1 tail start
                ++ forecasts F p
                    (suc k)
                    (suc (length tail))
                    (level_after F p (suc k) 1 tail start)
                    ahead
                    1))
  unfolding rounds
  rounds-eq p first trend tail seasonals k ahead {left} m n e =
      let start = level first trend seasonals in
      let from : From F p (suc k) (first ∷ tail) 1 tail = record {
        same_entries =
            λ j. let next : 1 + j ≡ suc j = omega arith in ap (get_elem? (first ∷ tail)) next;
        same_length = omega arith;
      } in
      let loop =
        sample-loop F p (suc k) (first ∷ tail) tail 1 ahead _ start (omega arith) from
          (level-Holds p (suc k) first trend seasonals n) in
      rw (e, rounds, m, loop) refl

  -- For a season length above 0, at least two seasons of samples and a look ahead of `ahead`
  -- samples, at least 0, `tripleExponentialSmoothing` returns the first sample, then what the
  -- recurrences for level, trend and season give at each later sample, and then `ahead` forecasts,
  -- all of them by the level behind the last sample. The recurrences start from the first sample,
  -- `initialTrend` and `initialSeasonalComponents`.
  pub triple_exponential_smoothing-eq :
      (p : HoltWinter F) (first : Float64) (tail : List Float64) (season ahead : ℕ)
      → 0 < season
      → p.slen ≡ pos season
      → p.look_forward ≡ pos ahead
      → season + season ≤ suc (length tail)
      → (trend : Float64) × (seasonals : List Float64) × (initial_trend F p.slen (first ∷ tail)
          ≡ ok trend)
        × (initial_seasonal_components F p.slen (first ∷ tail) ≡ ok seasonals)
        × (let start = level first trend seasonals in
            triple_exponential_smoothing F p (first ∷ tail)
            ≡ ok (
                first
                ∷ (fitted F p season 1 tail start
                    ++ forecasts F p season
                        (suc (length tail))
                        (level_after F p season 1 tail start)
                        ahead
                        1)))
  unfolding Returns ReturnsList
  triple_exponential_smoothing-eq p first tail zero ahead h e f n = elim h [ ]
  triple_exponential_smoothing-eq p first tail (suc k) ahead h e f n =
      let series = first ∷ tail in
      let (seasonals, e₁, n₁) = initial_seasonal_components-ReturnsList F p.slen series k e in
      let (trend, e₂) = initial_trend-Returns F p.slen series k e n in
      let size : pos_part (pos (length series) +ℤ p.look_forward) ≡ suc (length tail + ahead) =
        ap (λ b. pos_part (pos (length series) +ℤ b)) f
        ∙ (pos_part-+ℤ (length series) ahead ∙ omega arith) in
      let run =
        rounds-eq p first trend tail seasonals k ahead
          (ap (magnitude F) e ∙ magnitude_pos F (suc k)) n₁ size in
      (trend, seasonals, e₂, e₁, assemble F p series e₁ refl e₂ run)
