-- ===== src/Controller/Collectors/Workers.antt =====
-- `handleCollector` keeps the pointers to workers valid and the collector, however it ends.
use aom.Base.{ℕ, ◌≤◌, [], ◌∷◌, ◌≡◌, some, refl, length, length-append, arith}
use aom.Base.Dict.{lookup-erase, lookup-insert}
use aom.Floats.{Floats}
use aom.Collector.{Promc}
use aom.Controller.{AomSpec, Ranges}
use aom.Controller.Metrics.Keys.{IsValid}
use aom.Controller.Collectors.Frame.{IsKept, handle_collector-keeps}
use aom.Controller.Collectors.{CollectorState, start_worker, handle_collector}

module _ (F : Floats) where
  -- Every entry of the map of workers leads to a worker.
  abbrev pub HasWorkers : CollectorState F → Type 0
  HasWorkers s = IsValid (length s.workers) s.collector_worker_map

  HasWorkers-IsKept : IsKept F HasWorkers
  unfolding start_worker
  HasWorkers-IsKept = record {
    by_delete =
        λ key ch s h k p g. ground (arith, lookup-erase k key s.collector_worker_map, h k p);
    by_promc = λ p s h. h;
    by_start = λ key w s h k p g. ground (
      arith,
      lookup-insert k key (length s.workers) s.collector_worker_map,
      h k p,
      length-append s.workers (w ∷ []),
    );
  }

  pub handle_collector-HasWorkers :
      (o : Ranges) (spec : AomSpec) (s : CollectorState F)
      → HasWorkers s
      → HasWorkers (handle_collector F o spec s).1
  handle_collector-HasWorkers = handle_collector-keeps F HasWorkers HasWorkers-IsKept

  -- The collector was made.
  abbrev pub HasPromc : CollectorState F → Type 0
  HasPromc s = (p : Promc) × (s.p_collector ≡ some p)

  HasPromc-IsKept : IsKept F HasPromc
  unfolding start_worker
  HasPromc-IsKept = record {
    by_delete = λ key ch s h. h;
    by_promc = λ p s h. (p, refl);
    by_start = λ key w s h. h;
  }

  pub handle_collector-HasPromc :
      (o : Ranges) (spec : AomSpec) (s : CollectorState F)
      → HasPromc s
      → HasPromc (handle_collector F o spec s).1
  handle_collector-HasPromc = handle_collector-keeps F HasPromc HasPromc-IsKept

  -- There are at least `n` workers.
  abbrev HasMany : ℕ → CollectorState F → Type 0
  HasMany n s = n ≤ length s.workers

  HasMany-IsKept : (n : ℕ) → IsKept F (HasMany n)
  unfolding start_worker
  HasMany-IsKept n = record {
    by_delete = λ key ch s h. h;
    by_promc = λ p s h. h;
    by_start = λ key w s h. omega (arith, h, length-append s.workers (w ∷ []));
  }

  -- No worker is taken away from the cells.
  pub handle_collector-HasMany :
      (o : Ranges) (spec : AomSpec) (s : CollectorState F)
      → length s.workers ≤ length (handle_collector F o spec s).1.workers
  handle_collector-HasMany o spec s =
      handle_collector-keeps F (HasMany (length s.workers)) (HasMany-IsKept (length s.workers)) o
        spec s (omega arith)
