-- ===== src/Tests/Rounds.antt =====
-- A round of the scheduler behind the creation of the sample.
use mathlib.Core.List.{reverse}
use aom.Base.{
  none, Text, Text, Text-discrete, List, same, false, [], ◌∷◌, ◌≡◌, ◌⊎◌, refl, some, ok, codes,
}
use aom.Base.Int.{ℤ, pos, ◌*ℤ◌, div_ℤ}
use aom.Base.Dict.{Dict, lookup, insert, keys}
use aom.Basetype.{no_model_key, with_model_key}
use aom.Controller.Handle.{start_scheduler}
use aom.K8s.{get_replica, set_replica}
use aom.Scaler.{Scaler}
use aom.Scaler.Moves.{current}
use aom.Base.Shuffle.{Shuffle, Shuffle-refl, exchange}
use aom.Aomtype.{Hide, Heap}
use aom.Utils.Keys.{get_no_model_key}
use aom.Scaler.Strategy.{max_strategy}
use aom.Scaler.Strategy.Orders.{max_strategy-Shuffle}
use aom.Scheduler.Single.{offered, decide_from-one}
use aom.Scheduler.Double.{raised, paired, decide_from-two}
use aom.Tests.Keys.{requests}
use aom.Scheduler.{ResPair, IsAnswers, load, decide_from, Answers, decide, run_round}
use aom.Scheduler.Round.{Moved, run_round_lem}
use aom.Tests.Replicas.{app, whole, one_target, one_target-IsScales, at}
use aom.Tests.Reconciling.{created}

abbrev pub forecast : Answers whole one_target
forecast = record {
  predict = λ _.
      ok (record { start_metric = pos 10; loss = pos 0; predict_metric = pos 200 ∷ pos 90 ∷ [] });
  train = λ _. ok tt;
  now = pos 0;
  range_predictors = λ d. d;
  range_groups = λ d. d;
  range_metrics = λ d. d;
  arrivals = λ l. l;
}

round_eq :
    run_round whole one_target forecast created.1.hide created.1.heap (at (pos 1))
    ≡ (ok tt, at (pos 4))
unfolding run_round created lookup insert keys Text-discrete no_model_key with_model_key get_replica
    set_replica start_scheduler div_ℤ
round_eq = refl

abbrev round_scaler : Scaler
round_scaler = record {
  max_replica = pos 5;
  min_replica = pos 1;
  namespace = codes "default";
  scale_target_ref = app;
}

scaler_eq : created.1.hide.scaler ≡ some round_scaler
unfolding created start_scheduler
scaler_eq = refl

current_one : current one_target round_scaler (at (pos 1)) ≡ ok (pos 1)
unfolding get_replica
current_one = refl

run_round_lem_example :
    ((decide whole one_target forecast (at (pos 1)) created.1.hide created.1.heap ≡ ok none)
      × (at (pos 4) ≡ at (pos 1)))
    ⊎ ((t : ℤ) × (decide whole one_target forecast (at (pos 1)) created.1.hide created.1.heap
          ≡ ok (some t))
        × Moved whole one_target round_scaler (pos 1) (div_ℤ t 100) (at (pos 1)) (at (pos 4)))
run_round_lem_example =
    run_round_lem whole one_target one_target-IsScales forecast created.1.hide created.1.heap
      round_scaler (pos 1) (at (pos 1)) scaler_eq current_one round_eq

-- A state with one metric.
abbrev held : Hide whole
held = record {
  collector_map = [];
  metric_map = (codes "m", 0) ∷ [];
  predictor_map = [];
  collector_worker_map = [];
  model_map = [];
  train_history = [];
  scaler = some round_scaler;
}

abbrev cells : Heap whole
cells = record { metrics = requests ∷ []; models = []; channels = []; workers = [] }

pub forecast-IsAnswers : IsAnswers whole one_target forecast
forecast-IsAnswers = record {
  predictors_all = λ d. Shuffle-refl d;
  groups_all = λ d. Shuffle-refl d;
  metrics_all = λ d. Shuffle-refl d;
  arrivals_all = λ l. Shuffle-refl l;
}

key_m : get_no_model_key (codes "m$GRU") ≡ ok (codes "m")
unfolding get_no_model_key
key_m = refl

load_m : load whole one_target (codes "m") held.metric_map cells.metrics ≡ ok requests
unfolding load lookup Text-discrete
load_m = refl

decide_from-one_example :
    decide_from whole one_target forecast
      (record { model_replica = pos 2 ∷ pos 9 ∷ []; with_model_key = codes "m$GRU" } ∷ [])
      held
      cells
    ≡ ok (some (offered (pos 100) (pos 2) (pos 9 ∷ [])))
decide_from-one_example =
    decide_from-one whole one_target forecast held cells (codes "m") (codes "m$GRU") requests
      (pos 2) (pos 9 ∷ []) forecast-IsAnswers key_m load_m

-- Two replicas, times 100.
offered_eq : offered (pos 100) (pos 2) (pos 9 ∷ []) ≡ pos 200
unfolding offered ◌*ℤ◌
offered_eq = refl

max_strategy-Shuffle_example :
    max_strategy ((pos 1 ∷ pos 8 ∷ []) ∷ (pos 7 ∷ pos 2 ∷ []) ∷ [])
    ≡ max_strategy ((pos 7 ∷ pos 2 ∷ []) ∷ (pos 1 ∷ pos 8 ∷ []) ∷ [])
max_strategy-Shuffle_example =
    max_strategy-Shuffle 2 ((pos 1 ∷ pos 8 ∷ []) ∷ (pos 7 ∷ pos 2 ∷ []) ∷ [])
      ((pos 7 ∷ pos 2 ∷ []) ∷ (pos 1 ∷ pos 8 ∷ []) ∷ []) (refl, (refl, tt))
      (exchange (pos 1 ∷ pos 8 ∷ []) (pos 7 ∷ pos 2 ∷ []) [])

-- A state with two metrics, of which the second weighs half.
abbrev held_two : Hide whole
held_two = record held { metric_map = (codes "m", 0) ∷ (codes "n", 1) ∷ [] }

abbrev cells_two : Heap whole
cells_two = record cells { metrics = requests ∷ record requests { weight = pos 50 } ∷ [] }

abbrev two_pairs : List ResPair
two_pairs =
    record { model_replica = pos 2 ∷ pos 9 ∷ []; with_model_key = codes "m$GRU" }
    ∷ record { model_replica = pos 4 ∷ pos 3 ∷ []; with_model_key = codes "n$GRU" }
    ∷ []

key_n : get_no_model_key (codes "n$GRU") ≡ ok (codes "n")
unfolding get_no_model_key
key_n = refl

load_two :
    (load whole one_target (codes "m") held_two.metric_map cells_two.metrics ≡ ok requests)
    × (load whole one_target (codes "n") held_two.metric_map cells_two.metrics
        ≡ ok (record requests { weight = pos 50 }))
unfolding load lookup Text-discrete
load_two = (refl, refl)

apart : (same (codes "m") (codes "n") ≡ false) × (same (codes "n") (codes "m") ≡ false)
unfolding Text-discrete
apart = (refl, refl)

decide_from-two_example :
    let decided = decide_from whole one_target forecast two_pairs held_two cells_two in
    let one : Text × List ℤ = (codes "m", raised (pos 2 ∷ pos 9 ∷ [])) in
    let other : Text × List ℤ = (codes "n", raised (pos 4 ∷ pos 3 ∷ [])) in
    (d : Dict (List ℤ)) × Shuffle d (one ∷ other ∷ [])
    × (keys d
        ≡ keys (
            forecast.range_groups (
              (codes "m", (pos 2 ∷ pos 9 ∷ []) ∷ [])
              ∷ (codes "n", (pos 4 ∷ pos 3 ∷ []) ∷ [])
              ∷ [])))
    × (((forecast.range_metrics d ≡ one ∷ other ∷ [])
          × (decided ≡ ok (some (paired (pos 100) (pos 2) [] (pos 50) (pos 3)))))
        ⊎ ((forecast.range_metrics d ≡ other ∷ one ∷ [])
            × (decided ≡ ok (some (paired (pos 50) (pos 4) [] (pos 100) (pos 9))))))
decide_from-two_example =
    decide_from-two whole one_target forecast held_two cells_two (codes "m") (codes "n")
      (codes "m$GRU") (codes "n$GRU") requests (record requests { weight = pos 50 }) (pos 2) (pos 9)
      (pos 4) (pos 3) [] [] forecast-IsAnswers key_m key_n apart.0 apart.1 load_two.0 load_two.1

-- The two orders ask for two replicas and for nine, times 100.
both_orders :
    (decide_from whole one_target forecast two_pairs held_two cells_two ≡ ok (some (pos 200)))
    × (decide_from whole one_target
          (record forecast { range_metrics = reverse })
          two_pairs
          held_two
          cells_two
        ≡ ok (some (pos 900)))
unfolding decide_from lookup insert load Text-discrete
both_orders = (refl, refl)
