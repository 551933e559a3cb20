-- ===== src/Tests/Handling.antt =====
-- What an update and a call of `Reconcile` come to.
use aom.Base.{
  List, Result, if◌then◌else◌, codes, [], ◌∷◌, ◌≡◌, refl, ok, none, inl, inr, true, false, some,
  Text-discrete, Text, arith,
}
use aom.Base.Int.{pos}
use aom.Base.Dict.{lookup, insert, has, keys, mem, erase}
use aom.Basetype.{Model, no_model_key, with_model_key, gru, Metric-discrete, Model-discrete}
use aom.Collector.{set_server_address}
use aom.K8s.{new_client}
use aom.Predictor.{new_predictor}
use aom.Scheduler.{find_pair, start_one}
use aom.Controller.Metrics.{handle_metrics}
use aom.Controller.Metrics.Keys.{spec_keys}
use aom.Controller.Models.{handle_models}
use aom.Collector
use aom.Controller.{StatusCollector}
use aom.Controller.Collectors.{CollectorState, handle_collector}
use aom.Controller.Collectors.Keeping.{handle_collector-keys}
use aom.Controller.Models.Sharing.{Source, last_of_key}
use aom.Tests.Predictors.{with_samples, attributes}
use aom.Controller.Predictors.{handle_predictor}
use aom.Controller.Handle.{World, reconcile, found, start_scheduler, find_scheduler}
use aom.Controller.Handle.Through.{IsNew}
use aom.Controller.Handle.Done.{IsDone, reconcile-IsDone}
use aom.Controller.Handle.Complete.{IsMakeable, IsComplete}
use aom.Controller.Handle.Opened.{IsOpen}
use aom.Controller.Handle.Growing.{IsServable}
use aom.Controller.Handle.History.{AllServed, Follows, reconcile-AllServed}
use aom.Controller.{Aom}
use aom.System.{Reach, started, stepped, reconciling}
use aom.System.Holding.{IsHolding, Reach-IsHolding}
use aom.System.Training.{start_one-trains}
use aom.Tests.Keys.{requests}
use aom.Tests.Replicas.{whole, one_target}
use aom.Tests.Reconciling.{
  latency, in_order, in_order-IsRanges, aom_sample, fresh, answers, smoothing, spec,
}
use aom.Tests.Rounds.{forecast}
use aom.Tests.Systems.{fresh-IsSound, fresh-IsFresh, reconciled_once}

sample-IsNew : IsNew aom_sample
sample-IsNew = record { differs = refl; calls = inl refl }

reconciled_once_eq :
    reconcile whole one_target answers (found aom_sample) fresh
    ≡ (record { requeue = false; result = ok tt }, reconciled_once)
unfolding reconcile new_client handle_metrics handle_models handle_collector handle_predictor
    set_server_address find_scheduler start_scheduler lookup insert has keys mem erase Text-discrete
    no_model_key with_model_key Metric-discrete Model-discrete
reconciled_once_eq = refl

reconcile-IsDone_example : IsDone spec reconciled_once
reconcile-IsDone_example =
    reconcile-IsDone answers aom_sample fresh in_order-IsRanges fresh-IsSound sample-IsNew
      reconciled_once_eq

smoothing-IsMakeable : IsMakeable whole answers.json requests smoothing
unfolding new_predictor Text-discrete lookup with_model_key no_model_key
smoothing-IsMakeable = record { plain = omega arith; made = λ at w. (_, refl) }

spec-IsComplete : IsComplete whole answers.json spec
unfolding lookup Text-discrete
spec-IsComplete = ((requests, refl, (smoothing-IsMakeable, tt)), tt)

-- A model that needs training.
abbrev learner : Model
learner = record { type = gru; need_train = true; update_interval = pos 0; attr = attributes }

-- The sample with this model before its own, which needs none.
abbrev mixed : Aom
mixed = record aom_sample {
  spec = record spec { models = (codes "entity1", learner ∷ smoothing ∷ []) ∷ [] };
}

mixed-IsNew : IsNew mixed
mixed-IsNew = record { differs = refl; calls = inl refl }

abbrev learning : World whole one_target
learning = (reconcile whole one_target answers (found mixed) fresh).1

learning_eq :
    reconcile whole one_target answers (found mixed) fresh
    ≡ (record { requeue = false; result = ok tt }, learning)
unfolding reconcile new_client handle_metrics handle_models handle_collector handle_predictor
    set_server_address find_scheduler start_scheduler lookup insert has keys mem erase Text-discrete
    no_model_key with_model_key Metric-discrete Model-discrete
learning_eq = refl

learning-Reach : Reach whole one_target learning
learning-Reach = stepped (started fresh-IsFresh) (reconciling answers _ in_order-IsRanges)

-- The key of the model that needs training finds the other model.
found_pair :
    find_pair whole one_target (with_model_key requests gru) learning.hide learning.heap
    ≡ ok (smoothing, requests)
unfolding reconcile new_client handle_metrics handle_models handle_collector handle_predictor
    set_server_address find_scheduler start_scheduler lookup insert has keys mem erase Text-discrete
    no_model_key with_model_key Metric-discrete Model-discrete find_pair
found_pair = refl

start_one-trains_example :
    (source : Source mixed.spec (with_model_key requests gru)) × (start_one whole one_target
        forecast
        (with_model_key requests gru)
        learning.hide
        learning.heap
      ≡ ok (
          some (record {
            with_model_key = with_model_key requests gru;
            metric = requests;
            trained =
                if (last_of_key source).need_train
                then some (forecast.train (with_model_key requests gru))
                else none;
          })))
start_one-trains_example =
    start_one-trains forecast answers mixed (with_model_key requests gru) (started fresh-IsFresh)
      refl in_order-IsRanges mixed-IsNew learning_eq found_pair

-- So its predictor is not trained.
not_trained :
    start_one whole one_target forecast (with_model_key requests gru) learning.hide learning.heap
    ≡ ok (
        some (record {
          with_model_key = with_model_key requests gru;
          metric = requests;
          trained = none;
        }))
unfolding reconcile new_client handle_metrics handle_models handle_collector handle_predictor
    set_server_address find_scheduler start_scheduler lookup insert has keys mem erase Text-discrete
    no_model_key with_model_key Metric-discrete Model-discrete find_pair start_one
not_trained = refl

fresh-IsOpen : IsOpen spec fresh
unfolding has lookup
fresh-IsOpen = record { sound = fresh-IsSound; inside = λ j h. cc; workers = λ j. refl }

sample-IsServable : IsServable answers aom_sample fresh
unfolding new_client
sample-IsServable = record {
  ranges = in_order-IsRanges;
  new = sample-IsNew;
  answering = record { connected = refl; addressed = refl; written = refl };
  complete = spec-IsComplete;
}

-- The next generation, which asks for one metric more.
abbrev grown : Aom
grown = record aom_sample {
  generation = pos 2;
  spec = record spec { metrics = (codes "entity1", requests) ∷ (codes "entity2", latency) ∷ [] };
  status = record { status_collectors = []; generation = pos 1 };
}

grows : (j : Text) → mem j (spec_keys spec) ≡ true → mem j (spec_keys grown.spec) ≡ true
unfolding mem
grows j h = ground arith

grown-IsComplete : IsComplete whole answers.json grown.spec
unfolding lookup Text-discrete
grown-IsComplete = ((requests, refl, (smoothing-IsMakeable, tt)), tt)

grown-IsServable : IsServable answers grown reconciled_once
unfolding reconcile new_client handle_metrics handle_models handle_collector handle_predictor
    set_server_address find_scheduler start_scheduler lookup insert has keys mem erase Text-discrete
    no_model_key with_model_key Metric-discrete Model-discrete
grown-IsServable = record {
  ranges = in_order-IsRanges;
  new = record { differs = refl; calls = inr refl };
  answering = record { connected = refl; addressed = refl; written = refl };
  complete = grown-IsComplete;
}

grown-Follows : Follows spec ((answers, grown) ∷ []) reconciled_once
unfolding Follows
grown-Follows = (grows, grown-IsServable, tt)

reconcile-AllServed_example : AllServed ((answers, aom_sample) ∷ (answers, grown) ∷ []) fresh
reconcile-AllServed_example =
    reconcile-AllServed answers aom_sample fresh ((answers, grown) ∷ []) sample-IsServable
      fresh-IsOpen (inl refl) grown-Follows

Reach-IsHolding_example : IsHolding learning
Reach-IsHolding_example = Reach-IsHolding learning-Reach

-- Two metrics have a worker, and the spec has one of them.
abbrev busy : CollectorState whole
busy = record {
  channels = false ∷ false ∷ [];
  workers = with_samples [] ∷ with_samples [] ∷ [];
  collector_map = (no_model_key requests, 0) ∷ (no_model_key latency, 1) ∷ [];
  collector_worker_map = (no_model_key requests, 0) ∷ (no_model_key latency, 1) ∷ [];
  p_collector = some Collector.new;
  tasks = [];
}

unfoldable reduced : Result (List StatusCollector) × CollectorState whole
unfolding handle_collector lookup insert has keys mem erase Text-discrete no_model_key
reduced = handle_collector whole in_order spec busy

reduced_eq : handle_collector whole in_order spec busy ≡ (
  ok (record { name = requests.name; unit = requests.unit; expression = requests.query } ∷ []),
  reduced.1,
)
unfolding reduced
reduced_eq = refl

handle_collector-keys_example :
    (has (no_model_key latency) reduced.1.collector_map ≡ (
      if mem (no_model_key latency) (spec_keys spec)
      then true
      else has (no_model_key latency) busy.collector_map))
    × (has (no_model_key latency) reduced.1.collector_worker_map ≡ (
        if mem (no_model_key latency) (spec_keys spec)
        then if has (no_model_key latency) busy.collector_map
          then has (no_model_key latency) busy.collector_worker_map
          else true
        else false))
handle_collector-keys_example =
    handle_collector-keys whole in_order spec busy in_order-IsRanges refl (λ j h. h) reduced_eq
      (no_model_key latency)
