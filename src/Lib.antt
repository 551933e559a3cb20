-- ===== src/Lib.antt =====
-- AOM: a Kubernetes operator that scales a workload ahead of its load. An instance names metrics,
-- models that predict them, and a scale target. The reconciler (controllers) keeps the collector
-- workers and the predictors of an instance in step with its spec. The scheduler asks the
-- predictors at every interval, turns the predictions into replica counts, and scales the target.
--
-- Which module is about which code, by paths from the repository's root:
--   Base           shared names: tests, lists, maps as association lists, int32 with wrap-around,
--                  results and actions (a Go call returns a value, an error or a panic)
--   Utils          utils/common.go: keys, Max, Min, MulSlice, AddSlice; Utils/Maps is
--                  utils/concurrent_map.go and utils/map.go, Utils/Plot is utils/plot.go
--   Basetype       common/basetype: Metric, Model, NoModelKey, WithModelKey
--   Floats         float64 as a parameter: a type and its operations, with no law assumed
--   K8s            clients/k8s: NewClient, GetReplica, SetReplica; the API is the parameter Scales
--   Scaler         scaler: the strategies, UpTo and DownTo
--   Collector      collector and collector/prometheus_collector: the collector and its workers
--   Socket         utils/socket.go: the request and the read of the response
--   Ptype, Gru     predictor/type and predictor/GRU; Gru/Exchange is how it talks to the Python
--                  service: the exchange of Predict, the request of Train, WaitAndUpdate
--   HoltWinter     algorithms/holt_winter; Reference is a description of it by the recurrences for
--                  level, trend and season, and Forecast the result by them
--   Fake           fake/collector_worker.go, a worker for trials
--   Predictor      predictor/predictor.go: NewPredictor and the interface by its implementations;
--                  Made is about what NewPredictor makes, and Race has two goroutines whose
--                  predictors share a worker, whose buffer they access without a lock
--   Aomtype        common/aomtype and common/store: what is kept for one instance
--   Controller     controllers/aom_controller.go, a child for each handler, and the types of
--                  api/v1/aom_types.go; Handle has what calls the handlers, with children for how
--                  what they keep is kept by a whole call (Frame, and Sound and Kept for the stored
--                  pointers), what a call leaves (InStep, Through, Done), what it leaves alone
--                  (Alike), where model pointers lead (Sharing), when it succeeds (Complete,
--                  Opened, Returning, Succeeding), calls in a row (Settled, Growing, History),
--                  where an update can panic (Panics) and the scheduler's loops (Loops)
--   Scheduler      scheduler/scheduler.go: one round of Run; Single and Double are about rounds with
--                  results of one model or of one model for each of two metrics
--   System         the goroutines of the process over the state of one instance, as steps: a call of
--                  Reconcile, a round of the scheduler, a worker's or a predictor's call, and
--                  the answer to a training; children for the stored pointers, the stored
--                  predictors (Holding), what a round starts and what it trains
--   Tests          the theorems at concrete data, and runs
--
-- How code corresponds to the model. A method that changes its receiver or a global returns the
-- new state beside its result. A pointer that is compared or shared is the index of a cell: Go 1.19
-- has one loop variable for a whole `for` statement, so `&metric` in handleMetrics and `&model` in
-- handleModels are the same cell in every round. A `range` over a map visits the entries in an
-- order that is a parameter (Ranges), of which only the claim that each entry is visited once is
-- ever assumed. A map is an association list, and a map with a lock is accessed atomically. A Go
-- string is the list of its bytes. An index out of range, a nil dereference and the second close of
-- a channel are panics. No fuel is used: each loop of the code runs over a list or counts.
--
-- A step of System is one call: the reads and writes of a call are not interleaved with those of
-- another, and what a round's predictions and trainings do to the workers are steps of their own.
-- Predictor/Race is finer: there each access of a `Predict` to the worker's buffer is a step, as the
-- worker has no lock; one access is taken to be atomic.
-- What a peer answers on a socket, read by read, is an argument, and so is what `encoding/json`
-- makes of a request and a response.
--
-- The predictors' debug plots are left out of Predict, since what PlotLine returns is only logged.
-- A nil map is modelled in Utils/Maps; the maps of an instance are made before they are used, but
-- TrainHistory, into which nothing is stored.
--
-- Left out: log lines, the Python service (what it answers is an argument), the Prometheus
-- and Kubernetes client libraries (parameters), the generated deep copies, and start-up. Lengths and
-- indices are assumed to fit `int`, and the number of rows that MeanStrategy divides by to fit
-- `int32`. Intervals are in seconds.
pub mod Base
pub mod Socket
pub mod Utils
pub mod Basetype
pub mod Floats
pub mod K8s
pub mod Scaler
pub mod Collector
pub mod Ptype
pub mod Gru
pub mod HoltWinter
pub mod Fake
pub mod Predictor
pub mod Aomtype
pub mod Controller
pub mod Scheduler
pub mod System
mod Tests
