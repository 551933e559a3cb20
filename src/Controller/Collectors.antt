-- ===== src/Controller/Collectors.antt =====
-- `handleCollector` and `StartWorker`. A channel is a cell that says whether it is closed; closing
-- it twice panics.
pub mod Stopping
pub mod Stale
pub mod Adding
pub mod Frame
pub mod Workers
pub mod Keeping
use aom.Base.{
  ℕ, ◌+◌, Bool, true, false, Text, List, [], ◌∷◌, ◌++◌, map, Option, none, some, Error, Result, ok,
  err, panic, if◌then◌else◌, ite, length, get_elem?, set, not, ◌||◌,
}
use aom.Base.Int.{ℤ}
use aom.Base.Dict.{Dict, keys, mem, lookup, insert, erase, has}
use aom.Base.Action.{Action, pure, raise, crash, gets, modify, and_then, ◌>>=◌, ◌>>◌}
use aom.Basetype.{Metric, no_model_key}
use aom.Floats.{Floats}
use aom.Collector.{Promc, Worker, add_custom_metrics, create_worker}
use aom.Controller.{AomSpec, StatusCollector, Ranges, metric_values}

-- A goroutine that runs `StartWorker`: its worker's address and key, and its stop channel.
pub record WorkerTask : Type 0 where
  pub worker : ℕ
  pub key : Text
  pub stop : ℕ

module _ (F : Floats) where
  pub record CollectorState : Type 0 where
    pub channels : List Bool
    pub workers : List (Worker F)
    pub collector_map : Dict ℕ
    pub collector_worker_map : Dict ℕ
    -- `pCollector`, nil until the first creation.
    pub p_collector : Option Promc
    pub tasks : List WorkerTask

  -- The metrics whose key has no channel.
  unfoldable pub to_add : List Metric → Dict ℕ → List Metric
  to_add [] d = []
  to_add (metric ∷ ms) d =
      let rest = to_add ms d in if has (no_model_key metric) d then rest else metric ∷ rest

  -- The keys with a channel and no metric.
  unfoldable pub to_delete : List Text → List Text → List Text
  to_delete spec_keys [] = []
  to_delete spec_keys (k ∷ ks) =
      let rest = to_delete spec_keys ks in if mem k spec_keys then rest else k ∷ rest

  -- `close(ch)`
  unfoldable pub close : ℕ → Action CollectorState (Unit {0})
  close ch s = elim (get_elem? s.channels ch) [
    | none ↦ (panic, s)
    | some true ↦ (panic, s)
    | some false ↦ (ok tt, record s { channels = set s.channels ch true })
  ]

  -- The loop over the keys to delete. The channel's entry stays in the map.
  unfoldable pub delete_workers : List Text → Action CollectorState (Unit {0})
  unfolding close
  delete_workers [] s = (ok tt, s)
  delete_workers (v ∷ vs) s = elim (lookup v s.collector_map) [
    | none ↦ (panic, s)
    | some ch ↦ and_then (close ch s) (λ _ s'.
        delete_workers vs (record s' { collector_worker_map = erase v s'.collector_worker_map }))
  ]

  -- What `CreateWorker` answers, stored under the key with a fresh channel.
  unfoldable pub start_worker : Text → Result (Worker F) → Action CollectorState (Unit {0})
  start_worker key (err e) s = (err e, s)
  start_worker key panic s = (panic, s)
  start_worker key (ok worker) s = (
    ok tt,
    record s {
      channels = s.channels ++ false ∷ [];
      workers = s.workers ++ worker ∷ [];
      collector_map = insert key (length s.channels) s.collector_map;
      collector_worker_map = insert key (length s.workers) s.collector_worker_map;
      tasks =
          s.tasks ++ record { worker = length s.workers; key = key; stop = length s.channels } ∷ [];
    },
  )

  -- One round of the loop over the metrics to add. A call on the nil collector panics.
  unfoldable pub add_worker : Metric → Action CollectorState (Unit {0})
  unfolding start_worker add_custom_metrics create_worker
  add_worker m s = elim s.p_collector [
    | none ↦ (panic, s)
    | some p ↦
        let p' = add_custom_metrics m p in
        start_worker (no_model_key m) (create_worker F m p') (record s { p_collector = some p' })
  ]

  unfoldable pub add_workers : List Metric → Action CollectorState (Unit {0})
  unfolding add_worker
  add_workers [] s = (ok tt, s)
  add_workers (m ∷ ms) s = and_then (add_worker m s) (λ _ s'. add_workers ms s')

  -- It returns the new `Status.StatusCollectors`.
  unfoldable pub handle_collector : Ranges → AomSpec → Action CollectorState (List StatusCollector)
  unfolding to_add to_delete delete_workers add_workers
  handle_collector o spec s =
      let adds = to_add (metric_values (o.metrics 3 spec.metrics)) s.collector_map in
      let deletes =
        to_delete (map no_model_key (metric_values spec.metrics))
          (o.keys 2 (keys s.collector_map)) in
      and_then (delete_workers deletes s) (λ _ t. and_then (add_workers adds t) (λ _ u. (
        ok (
            map (λ m. record { name = m.name; unit = m.unit; expression = m.query })
              (metric_values (o.metrics 4 spec.metrics))),
        u,
      )))

-- What a round of `StartWorker` does: it ends the goroutine, marks the end, or collects.
pub data Round : Type 0 where
  stopped marked collected : Round

-- One tick of `StartWorker`: whether the worker map still has the key, whether the context is done
-- and whether the stop channel is closed. The first part of the result is the new `end`.
unfoldable pub worker_round : Bool → Bool → Bool → Bool → Bool × Round
worker_round has_key ctx_done stop_closed end =
    if not has_key || end
    then (end, stopped)
    else if ctx_done || stop_closed
    then (true, marked)
    else (end, collected)

pub record Tick : Type 0 where
  pub has_key : Bool
  pub ctx_done : Bool
  pub stop_closed : Bool

-- The loop of `StartWorker` over the ticks of its timer.
unfoldable pub worker_loop : List Tick → Bool → List Round
unfolding worker_round
worker_loop [] end = []
worker_loop (t ∷ ts) end =
    let (end', round) = worker_round t.has_key t.ctx_done t.stop_closed end in
    let rest = worker_loop ts end' in
    round ∷ (elim round [ stopped ↦ [] | marked ↦ rest | collected ↦ rest ])
