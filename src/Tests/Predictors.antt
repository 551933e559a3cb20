-- ===== src/Tests/Predictors.antt =====
-- The GRU predictor.
use aom.Base.{
  true, false, codes, Text, List, [], ◌∷◌, ◌≡◌, refl, none, Result, ok, err, panic,
  no_sufficient_data, arith, Text-discrete,
}
use aom.Base.Int.{pos}
use aom.Base.Dict.{Dict, lookup}
use aom.Collector.{Sample, Worker, data_cap}
use aom.Ptype.{Json, Param}
use aom.Gru.{Gru, GruModel, Response, new, predict, train}
use aom.Gru.Safety.{predict_panics, predict_safe, answered, train_starved}
use aom.Tests.Replicas.{whole}
use aom.Tests.Reconciling.{or_empty}

abbrev pub attributes : Dict Text
attributes =
    (codes "address", codes "/tmp/uds_socket")
    ∷ (codes "resp_recv_address", codes "/tmp/rra.socket")
    ∷ (codes "look_back", codes "3")
    ∷ (codes "look_forward", codes "2")
    ∷ (codes "batch_size", codes "10")
    ∷ (codes "train_size", codes "60")
    ∷ (codes "epochs", codes "200")
    ∷ (codes "n_layers", codes "1")
    ∷ []

abbrev json : Json
json = λ attr tag. or_empty (lookup tag attr)

abbrev param : Param
param = record { with_model_key = codes "a"; model = attributes; metric_collector = 0 }

abbrev pub sample : Sample whole
sample = record { value = pos 5; time_stamp = pos 1 }

abbrev pub with_samples : List (Sample whole) → Worker whole
with_samples l = record { name = []; unit = []; promql = []; samples = l; client = none }

abbrev model : GruModel
model = record {
  address = codes "/tmp/uds_socket";
  resp_recv_address = codes "/tmp/rra.socket";
  look_back = pos 3;
  look_forward = pos 2;
  batch_size = pos 10;
  train_size = pos 60;
  epochs = pos 200;
  n_layers = pos 1;
}

abbrev pub made : Gru whole
made = record {
  metric_history = sample ∷ [];
  with_model_key = codes "a";
  model = model;
  collector_worker = 0;
  ready_to_predict = false;
  address = codes "/tmp/uds_socket";
  debug = false;
}

made_eq : new whole json param (with_samples (sample ∷ [])) ≡ ok (made, with_samples [])
unfolding new lookup Text-discrete
made_eq = refl

abbrev pub trained : Result (Response whole)
trained = ok (record { loss = pos 0; trained = true; prediction = pos 7 ∷ []; error = [] })

train_starved_example :
    train whole
      (λ _. ok tt)
      (answered whole (trained ∷ []) made)
      (with_samples (sample ∷ sample ∷ []))
    ≡ (err no_sufficient_data, with_samples (sample ∷ sample ∷ []))
unfolding data_cap
train_starved_example =
    train_starved whole json param (with_samples (sample ∷ []))
      (with_samples (sample ∷ sample ∷ [])) (trained ∷ []) (λ _. ok tt) made_eq refl

abbrev pub ready : Gru whole
ready = record made { ready_to_predict = true }

predict_panics_example :
    predict whole (λ _. trained) ready (with_samples (sample ∷ sample ∷ []))
    ≡ (panic, with_samples [])
unfolding data_cap
predict_panics_example =
    predict_panics whole (λ _. trained) ready (with_samples (sample ∷ sample ∷ [])) 3 2 refl refl
      refl (omega arith) (omega arith)

abbrev pub short : Gru whole
short = record ready { model = record model { look_back = pos 1 } }

predict_safe_example :
    ¬ ((predict whole (λ _. trained) short (with_samples (sample ∷ sample ∷ []))).0 ≡ panic)
predict_safe_example =
    predict_safe whole (λ _. trained) short (with_samples (sample ∷ sample ∷ [])) 1 2 refl refl
      (omega arith) (omega arith) (λ r e. cc)
