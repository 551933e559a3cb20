-- ===== src/Tests/Windows.antt =====
-- What a prediction is made of.
use aom.Base.{true, [], ◌∷◌, ◌≡◌, refl, Result, ok, arith}
use aom.Base.Int.{pos}
use aom.Collector.{data_cap}
use aom.Gru.{Request, Response, predict, last_of}
use aom.Gru.Window.{predict-window}
use aom.Tests.Replicas.{whole}
use aom.Tests.Predictors.{sample, with_samples, ready}

-- A service that is trained and predicts what it is asked with.
abbrev echo : Request whole → Result (Response whole)
echo r = ok (record { loss = pos 0; trained = true; prediction = r.predict_history; error = [] })

predict-window_example :
    predict whole echo ready (
      with_samples
        (record sample { value = pos 1 } ∷ sample ∷ sample ∷ record sample { value = pos 8 } ∷ []))
    ≡ (
      ok (record {
        start_metric = pos 8;
        loss = pos 0;
        predict_metric = pos 5 ∷ pos 5 ∷ pos 8 ∷ [];
      }),
      with_samples [],
    )
unfolding data_cap last_of
predict-window_example =
    predict-window whole echo ready
      (with_samples
        (record sample { value = pos 1 } ∷ sample ∷ sample ∷ record sample { value = pos 8 } ∷ []))
      3 2 refl refl refl (omega arith) (omega arith) (omega arith) refl refl refl
