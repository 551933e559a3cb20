-- ===== src/System.antt =====
-- The controller as a whole, for one instance: the goroutines of main.go, of the reconciler and of
-- the scheduler over the state that they share. A step is one call that a goroutine makes.
pub mod Pointers
pub mod Starting
pub mod Training
pub mod Holding
use aom.Base.{
  ℕ, Bool, Text, List, [], Option, none, some, ◌≡◌, Error, Result, ok, err, panic, get_elem?, set,
}
use aom.Base.Dict.{lookup, insert}
use aom.Floats.{Floats}
use aom.K8s.{Scales}
use aom.Collector.{Worker, Sample, collect}
use aom.Gru
use aom.Gru.{Request, Response}
use aom.Predictor
use aom.Predictor.{Predictor, gru, holt_winter, worker_of}
use aom.Aomtype.{Hide, Heap, init}
use aom.Scheduler.{Answers, run_round}
use aom.Controller.{IsRanges}
use aom.Controller.Collectors.{WorkerTask}
use aom.Controller.Handle.{World, Outside, Fetched, reconcile}

module _ (F : Floats) (K : Scales) where
  -- A call on the worker at an address. No worker is at an address that was never given out.
  unfoldable pub at_worker : ℕ → (Worker F → Worker F) → World F K → World F K
  at_worker p f w = elim (get_elem? w.heap.workers p) [
    | none ↦ w
    | some worker ↦ record w { heap = record w.heap { workers = set w.heap.workers p (f worker) } }
  ]

  -- `Collect` in a round of `StartWorker`.
  unfoldable pub collects : WorkerTask → Result (List (Sample F)) → World F K → World F K
  unfolding at_worker
  collects task answer w = at_worker task.worker (λ v. (collect F answer v).1) w

  -- A call of the predictor with a key, on its worker.
  unfoldable pub at_predictor : Text → (Predictor F → Worker F → Worker F) → World F K → World F K
  unfolding at_worker
  at_predictor key f w = elim (lookup key w.hide.predictor_map) [
    | none ↦ w
    | some p ↦ at_worker (worker_of F p) (f p) w
  ]

  -- `Predict` in a goroutine of a round.
  abbrev pub predicts : Text → (Request F → Result (Response F)) → World F K → World F K
  predicts key exchange = at_predictor key (λ p v. (Predictor.predict F exchange p v).1)

  -- `Train` in a goroutine of a round.
  abbrev pub trains : Text → (Request F → Result (Unit {0})) → World F K → World F K
  trains key post = at_predictor key (λ p v. (Predictor.train F post p v).1)

  -- `WaitAndUpdate` behind a training, once it has an answer or an error. A predictor that left the
  -- map is out of reach, and one of Holt-Winters waits for nothing.
  updated : Result (Response F) → Predictor F → Predictor F
  updated received (gru g) = gru (Gru.wait_and_update F received g).1
  updated received (holt_winter p) = holt_winter p

  unfoldable pub answers : Text → Result (Response F) → World F K → World F K
  unfolding updated
  answers key received w = elim (lookup key w.hide.predictor_map) [
    | none ↦ w
    | some p ↦ record w {
      hide = record w.hide { predictor_map = insert key (updated received p) w.hide.predictor_map };
    }
  ]

  -- The rest of a round.
  unfoldable pub scales : Answers F K → World F K → World F K
  unfolding run_round
  scales a w = record w { client = (run_round F K a w.hide w.heap w.client).1 }

  -- What the goroutines do, in any order.
  pub data Step : World F K → World F K → Type 0 where
    reconciling :
        (x : Outside F K) (f : Fetched F K) {w : World F K}
        → IsRanges x.ranges
        → Step w (reconcile F K x f w).1
    collecting :
        (task : WorkerTask) (answer : Result (List (Sample F))) {w : World F K}
        → Step w (collects task answer w)
    predicting :
        (key : Text) (exchange : Request F → Result (Response F)) {w : World F K}
        → Step w (predicts key exchange w)
    training :
        (key : Text) (post : Request F → Result (Unit {0})) {w : World F K}
        → Step w (trains key post w)
    answering :
        (key : Text) (received : Result (Response F)) {w : World F K}
        → Step w (answers key received w)
    scaling : (a : Answers F K) {w : World F K} → Step w (scales a w)

  -- A process that holds nothing of the instance.
  pub record IsFresh (w : World F K) : Type 0 where
    pub no_hide : w.hide ≡ init F
    pub no_heap : w.heap ≡ (record { metrics = []; models = []; channels = []; workers = [] })

  pub data Reach : World F K → Type 0 where
    started : {w : World F K} → IsFresh w → Reach w
    stepped : {v w : World F K} → Reach v → Step v w → Reach w
