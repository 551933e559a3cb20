-- ===== src/Controller/Handle/Kept.antt =====
-- What a call of `Reconcile` keeps of the stored pointers.
use aom.Floats.{Floats}
use aom.K8s.{Scales}
use aom.Controller.{Ranges, IsRanges}
use aom.Controller.Handle.Frame.{IsKept, reconcile-keeps}
use aom.Controller.Handle.Sound.{
  IsSound, run_metrics-IsSound, run_models-IsSound, run_collector-IsSound, run_predictor-IsSound,
}
use aom.Controller.Handle.{Outside, World, Fetched, reconcile, init_scaler, start_scheduler}

module _ {F : Floats} {K : Scales} where
  pub IsSound-IsKept : (o : Ranges) → IsRanges o → IsKept o (λ (w : World F K). IsSound w)
  unfolding init_scaler start_scheduler
  IsSound-IsKept o law = record {
    by_aom = λ w aom h. record {
      metric_cells = h.metric_cells;
      model_cells = h.model_cells;
      worker_cells = h.worker_cells;
    };
    by_promc = λ w p h. record {
      metric_cells = h.metric_cells;
      model_cells = h.model_cells;
      worker_cells = h.worker_cells;
    };
    by_client = λ w c h. record {
      metric_cells = h.metric_cells;
      model_cells = h.model_cells;
      worker_cells = h.worker_cells;
    };
    by_scaler = λ w h. record {
      metric_cells = h.metric_cells;
      model_cells = h.model_cells;
      worker_cells = h.worker_cells;
    };
    by_scheduler = λ w h. record {
      metric_cells = h.metric_cells;
      model_cells = h.model_cells;
      worker_cells = h.worker_cells;
    };
    by_metrics = λ w h. run_metrics-IsSound o w law h;
    by_models = λ w h. run_models-IsSound o w law h;
    by_collector = λ w h. run_collector-IsSound o w h;
    by_predictor = λ json changes w h. run_predictor-IsSound json o changes w h;
  }

  -- Whatever the API server answers, whatever else the outside answers, in whatever orders the
  -- ranges visit and however the call ends, if every stored pointer to a metric, a model or a worker
  -- leads to a cell before a call of `Reconcile`, every one does afterwards.
  pub reconcile-IsSound :
      (x : Outside F K) (f : Fetched F K) (w : World F K)
      → IsRanges x.ranges
      → IsSound w
      → IsSound (reconcile F K x f w).1
  reconcile-IsSound x f w law h = reconcile-keeps IsSound x (IsSound-IsKept x.ranges law) f w h
