-- ===== src/Tests/Races.antt =====
-- Two predictors of one worker, and a smoothing by its recurrences.
use aom.Base.{[], ◌∷◌, List, ◌≡◌, refl, Result, ok, panic, arith, ◌++◌}
use aom.Base.Int.{ℤ, pos}
use aom.Gru.{Request, Response}
use aom.Collector.{Worker}
use aom.Predictor.{gru}
use aom.Predictor.Race.{
  waiting, passed, sized, ended, Shared, check, zero_sample, copied, reset, digest, checks, makes,
  copies, resets, by_first, by_second, Reach, started, stepped,
}
use aom.Ptype.{PredictResult}
use aom.Predictor.Race.Schedules.{second_panics}
use aom.Predictor.Race.Outcomes.{Ends, Reach-Ends}
use aom.HoltWinter.{initial_trend, initial_seasonal_components, triple_exponential_smoothing}
use aom.HoltWinter.Reference.{fitted, level_after, forecasts}
use aom.HoltWinter.Forecast.{level, triple_exponential_smoothing-eq}
use aom.Tests.Replicas.{whole, smoother, series}
use aom.Tests.Predictors.{sample, with_samples, short, trained}

abbrev service : Request whole → Result (Response whole)
service _ = trained

-- Two samples, which both predictors find enough.
abbrev stocked : Worker whole
stocked = with_samples (sample ∷ sample ∷ [])

-- What the second one makes of zero values.
abbrev of_zeros : Result (PredictResult whole)
of_zeros = ok (record { start_metric = pos 0; loss = pos 0; predict_metric = pos 7 ∷ [] })

-- Both checked and made their slices, then the first one copied and emptied the buffer, and then the
-- second one copied.
abbrev both_ended : Shared whole
both_ended = record {
  worker = with_samples [];
  first = ended (ok (record { start_metric = pos 5; loss = pos 0; predict_metric = pos 7 ∷ [] }));
  second = ended of_zeros;
}

both_ended-Reach : Reach whole service (gru short) (gru short) stocked both_ended
unfolding check copied reset digest
both_ended-Reach =
    let checked_both =
      stepped (stepped started (by_first waiting (checks stocked)))
        (by_second passed (checks stocked)) in
    let made_both =
      stepped (stepped checked_both (by_first passed (makes stocked)))
        (by_second (sized 2) (makes stocked)) in
    let first_ended =
      stepped (stepped made_both (by_first (sized 2) (copies stocked 2)))
        (by_first (sized 2) (resets stocked (sample ∷ sample ∷ []))) in
    let zeros = zero_sample whole ∷ zero_sample whole ∷ [] in
    stepped (stepped first_ended (by_second both_ended.first (copies (with_samples []) 2)))
      (by_second both_ended.first (resets (with_samples []) zeros))

Reach-Ends_example :
    (both_ended.first ≡ ended of_zeros
      → Ends whole service stocked (with_samples []) (gru short) of_zeros)
    × (both_ended.second ≡ ended of_zeros
        → Ends whole service stocked (with_samples []) (gru short) of_zeros)
Reach-Ends_example =
    Reach-Ends whole service (gru short) (gru short) stocked of_zeros both_ended-Reach

checks_pass : check whole (gru short) stocked ≡ ok tt
unfolding check
checks_pass = refl

second_panics_example :
    (s : Shared whole) × Reach whole service (gru short) (gru short) stocked s
    × (s.second ≡ ended panic)
second_panics_example =
    second_panics whole service (gru short) (gru short) 0 stocked checks_pass checks_pass refl

triple_exponential_smoothing-eq_example :
    (trend : ℤ) × (seasonals : List ℤ) × (initial_trend whole (pos 2) series ≡ ok trend)
    × (initial_seasonal_components whole (pos 2) series ≡ ok seasonals)
    × (let start = level whole (pos 4) trend seasonals in
        let tail = pos 8 ∷ pos 4 ∷ pos 8 ∷ [] in
        triple_exponential_smoothing whole smoother series
        ≡ ok (
            pos 4
            ∷ (fitted whole smoother 2 1 tail start
                ++ forecasts whole smoother 2 4 (level_after whole smoother 2 1 tail start) 3 1)))
triple_exponential_smoothing-eq_example =
    triple_exponential_smoothing-eq whole smoother (pos 4) (pos 8 ∷ pos 4 ∷ pos 8 ∷ []) 2 3
      (omega arith) refl refl (omega arith)
