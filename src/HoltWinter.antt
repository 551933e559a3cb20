-- ===== src/HoltWinter.antt =====
-- algorithms/holt_winter: the predictor that smooths the buffered samples. The log lines and the
-- plot of the debug mode are left out.
pub mod Loops
pub mod Reference
pub mod Forecast
use aom.Base.{
  ℕ, zero, suc, ◌+◌, ◌-◌, ◌*◌, ◌/◌, ◌%◌, Bool, true, false, Text, List, [], ◌∷◌, ◌++◌, map, Option,
  none, some, Error, Result, ok, err, panic, ◌>>=◌, no_sufficient_data, syntax, same, codes, length,
  get_elem?, set, replicate, or_panic, if◌then◌else◌, ltb, leb, ◌==◌,
}
use aom.Base.Int.{ℤ, pos, negsuc, pos_part, neg_part, ltb_ℤ, ◌+ℤ◌}
use aom.Base.Atoi.{atoi}
use aom.Base.Dict.{Dict}
use aom.Floats.{Floats}
use aom.Collector.{Sample, Worker, send, data_cap}
use aom.Ptype.{Json, PredictResult, Param}
use aom.Gru.{suffix, last_of}

module _ (F : Floats) where
  open F use {Float64, zero_float, one_float, add, sub, mul, div, of_int, parse_float}

  pub record HoltWinter : Type 0 where
    pub debug : Bool
    pub slen : ℤ
    pub look_forward : ℤ
    pub look_backward : ℤ
    pub alpha : Float64
    pub beta : Float64
    pub gamma : Float64
    pub with_model_key : Text
    pub collector_worker : ℕ

  abbrev float : ℕ → Float64
  float n = of_int (pos n)

  -- The loop of `initialTrend`, with `left` rounds to go at `i`, for a season of `slen` samples.
  unfoldable pub trend_loop : ℕ → List Float64 → ℕ → ℕ → Float64 → Result Float64
  trend_loop slen series zero i sum = ok sum
  trend_loop slen series (suc left) i sum = do
    later ← or_panic (get_elem? series (i + slen))
    now ← or_panic (get_elem? series i)
    trend_loop slen series left (suc i) (add sum (div (sub later now) (float slen)))

  -- A season length below 0 makes no round.
  unfoldable pub initial_trend : ℤ → List Float64 → Result Float64
  unfolding trend_loop
  initial_trend slen series = do
    sum ← trend_loop (pos_part slen) series (pos_part slen) 0 zero_float
    ok (div sum (of_int slen))

  -- The sum of `left` entries from `i` on.
  unfoldable pub sum_loop : List Float64 → ℕ → ℕ → Float64 → Result Float64
  sum_loop series zero i sum = ok sum
  sum_loop series (suc left) i sum = do
    value ← or_panic (get_elem? series i)
    sum_loop series left (suc i) (add sum value)

  -- The averages of `left` seasons from season `j` on.
  unfoldable pub averages : ℕ → List Float64 → ℕ → ℕ → Result (List Float64)
  unfolding sum_loop
  averages slen series zero j = ok []
  averages slen series (suc left) j = do
    sum ← sum_loop series slen (slen * j) zero_float
    rest ← averages slen series left (suc j)
    ok (div sum (float slen) ∷ rest)

  -- The inner loop of the initial values, over the seasons from `j` on.
  unfoldable pub deviation_loop : ℕ → List Float64 → ℕ → List Float64 → ℕ → Float64 → Result Float64
  deviation_loop slen series i [] j sum = ok sum
  deviation_loop slen series i (average ∷ season_averages) j sum = do
    value ← or_panic (get_elem? series (slen * j + i))
    deviation_loop slen series i season_averages (suc j) (add sum (sub value average))

  -- The initial values of `left` places of the season from `i` on.
  unfoldable pub seasonals_loop : ℕ → List Float64 → List Float64 → ℕ → ℕ → Result (List Float64)
  unfolding deviation_loop
  seasonals_loop slen series season_averages zero i = ok []
  seasonals_loop slen series season_averages (suc left) i = do
    sum ← deviation_loop slen series i season_averages 0 zero_float
    rest ← seasonals_loop slen series season_averages left (suc i)
    ok (div sum (float (length season_averages)) ∷ rest)

  -- The map from places of the season to values is a list by place, where a place that was never
  -- written reads as 0. A season length of 0 divides by zero; below 0 no loop makes a round.
  unfoldable pub initial_seasonal_components : ℤ → List Float64 → Result (List Float64)
  unfolding averages seasonals_loop
  initial_seasonal_components (pos zero) series = panic
  initial_seasonal_components (pos (suc k)) series = do
    season_averages ← averages (suc k) series (length series / suc k) 0
    seasonals_loop (suc k) series season_averages (suc k) 0
  initial_seasonal_components (negsuc k) series = ok (replicate (suc k) zero_float)

  -- The variables of the smoothing loop.
  pub record Smoothing : Type 0 where
    pub smooth : Float64
    pub trend : Float64
    pub seasonals : List Float64

  -- One round at `i`, for `i` other than 0: the new variables and the value that is appended.
  -- `size` is the absolute value of the season length, so that `i % p.slen` is `i % size`.
  unfoldable pub smoothing_step :
      HoltWinter → ℕ → List Float64 → ℕ → Smoothing → Result (Smoothing × Float64)
  smoothing_step p size series i s =
      let place = i % size in
      if leb (length series) i
      then (do
        seasonal ← or_panic (get_elem? s.seasonals place)
        let ahead = mul (float (i - length series + 1)) s.trend
        ok (s, add (add s.smooth ahead) seasonal))
      else (do
        val ← or_panic (get_elem? series i)
        seasonal ← or_panic (get_elem? s.seasonals place)
        let smooth =
            add (mul p.alpha (sub val seasonal))
              (mul (sub one_float p.alpha) (add s.smooth s.trend))
        let trend = add (mul p.beta (sub smooth s.smooth)) (mul (sub one_float p.beta) s.trend)
        let next = add (mul p.gamma (sub val smooth)) (mul (sub one_float p.gamma) seasonal)
        ok (
          record { smooth = smooth; trend = trend; seasonals = set s.seasonals place next },
          add (add smooth trend) next,
        ))

  -- `left` rounds from `i` on, `i` not 0.
  unfoldable pub smoothing_loop :
      HoltWinter → ℕ → List Float64 → ℕ → ℕ → Smoothing → Result (List Float64)
  unfolding smoothing_step
  smoothing_loop p size series zero i s = ok []
  smoothing_loop p size series (suc left) i s = do
    (s', value) ← smoothing_step p size series i s
    rest ← smoothing_loop p size series left (suc i) s'
    ok (value ∷ rest)

  -- The absolute value.
  abbrev pub magnitude : ℤ → ℕ
  magnitude a = pos_part a + neg_part a

  -- The loop with its round at 0, which appends the first sample.
  unfoldable pub rounds :
      HoltWinter → List Float64 → Float64 → ℕ → Smoothing → Result (List Float64)
  unfolding smoothing_loop
  rounds p series first zero s = ok []
  rounds p series first (suc left) s = do
    rest ← smoothing_loop p (magnitude p.slen) series left 1 s
    ok (first ∷ rest)

  unfoldable pub triple_exponential_smoothing : HoltWinter → List Float64 → Result (List Float64)
  unfolding initial_seasonal_components initial_trend rounds ◌+ℤ◌
  triple_exponential_smoothing p series = do
    seasonals ← initial_seasonal_components p.slen series
    smooth ← or_panic (get_elem? series 0)
    trend ← initial_trend p.slen series
    rounds p series smooth (pos_part (pos (length series) +ℤ p.look_forward))
        (record { smooth = smooth; trend = trend; seasonals = seasonals })

  unfoldable pub predict : HoltWinter → Worker F → Result (PredictResult F) × Worker F
  unfolding data_cap send suffix last_of triple_exponential_smoothing
  predict p w =
      if ltb_ℤ (pos (data_cap F w)) p.look_backward
      then (err no_sufficient_data, w)
      else let (sent, w') = send F w in
        (
          (do
            metrics ← suffix p.look_backward sent
            let series = map (λ (m : Sample F). m.value) metrics
            pred_metrics ← triple_exponential_smoothing p series
            start_metric ← last_of series
            ok (record {
              start_metric = start_metric;
              loss = sub zero_float one_float;
              predict_metric = pred_metrics;
            })),
          w',
        )

  unfoldable pub train : HoltWinter → Result (Unit {0})
  train p = ok tt

  abbrev pub parse : Text → Result Float64
  parse s = elim (parse_float s) [ none ↦ err syntax | some x ↦ ok x ]

  unfoldable pub new : Json → Param → Result HoltWinter
  unfolding atoi
  new json p = do
    slen ← atoi (json p.model (codes "slen"))
    look_forward ← atoi (json p.model (codes "look_forward"))
    look_back ← atoi (json p.model (codes "look_backward"))
    alpha ← parse (json p.model (codes "alpha"))
    beta ← parse (json p.model (codes "beta"))
    gamma ← parse (json p.model (codes "gamma"))
    ok (record {
      debug = same (json p.model (codes "debug")) (codes "true");
      slen = slen;
      look_forward = look_forward;
      look_backward = look_back;
      alpha = alpha;
      beta = beta;
      gamma = gamma;
      with_model_key = p.with_model_key;
      collector_worker = p.metric_collector;
    })
