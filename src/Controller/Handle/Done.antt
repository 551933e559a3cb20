-- ===== src/Controller/Handle/Done.antt =====
-- What a successful `Reconcile` of a new generation leaves behind.
use aom.Base.{◌≡◌, ok, false}
use aom.Floats.{Floats}
use aom.K8s.{Scales}
use aom.Controller.{Aom, AomSpec, IsRanges}
use aom.Controller.Handle.{
  Outside, World, init_collector, start_scheduler, set_generation, reconcile, found,
}
use aom.Controller.Handle.Frame.{init_collector-keeps, set_address-keeps}
use aom.Controller.Handle.Sound.{IsSound}
use aom.Controller.Handle.Kept.{IsSound-IsKept}
use aom.Controller.Handle.InStep.{IsInStep, handle_update-IsInStep}
use aom.Controller.Handle.Alike.{prepared, handle_update-IsAlike}
use aom.Controller.Handle.Through.{IsNew, IsLeft, reconcile-leaves}

module _ {F : Floats} {K : Scales} where
  -- The maps are in step with the spec, which is the given one.
  pub record IsDone (spec : AomSpec) (w : World F K) : Type 0 where
    pub in_step : IsInStep w
    pub same_spec : w.aom.spec ≡ spec

  pub prepared-IsSound :
      (x : Outside F K) (w : World F K) → IsRanges x.ranges → IsSound w → IsSound (prepared x w)
  prepared-IsSound x w law h =
      let k = IsSound-IsKept x.ranges law in
      let v = init_collector F K w in
      k.by_scaler _ (
        set_address-keeps IsSound x k x.api_new_client v.p_collector v
          (init_collector-keeps IsSound x k w h))

  start_scheduler-IsDone :
      (spec : AomSpec) (w : World F K) → IsDone spec w → IsDone spec (start_scheduler F K w)
  unfolding start_scheduler
  start_scheduler-IsDone spec w h = record {
    in_step = record {
      metric_keys = h.in_step.metric_keys;
      model_keys = h.in_step.model_keys;
      predictor_keys = h.in_step.predictor_keys;
      sound = record {
        metric_cells = h.in_step.sound.metric_cells;
        model_cells = h.in_step.sound.model_cells;
        worker_cells = h.in_step.sound.worker_cells;
      };
    };
    same_spec = h.same_spec;
  }

  set_generation-IsDone :
      (spec : AomSpec) (w : World F K) → IsDone spec w → IsDone spec (set_generation F K w)
  unfolding set_generation
  set_generation-IsDone spec w h = record {
    in_step = record {
      metric_keys = h.in_step.metric_keys;
      model_keys = h.in_step.model_keys;
      predictor_keys = h.in_step.predictor_keys;
      sound = record {
        metric_cells = h.in_step.sound.metric_cells;
        model_cells = h.in_step.sound.model_cells;
        worker_cells = h.in_step.sound.worker_cells;
      };
    };
    same_spec = h.same_spec;
  }

  IsDone-IsLeft : (x : Outside F K) → IsRanges x.ranges → IsLeft x IsSound IsSound IsDone
  IsDone-IsLeft x law = record {
    by_client = λ w c h. (IsSound-IsKept x.ranges law).by_client w c h;
    by_prepared = λ w h. prepared-IsSound x w law h;
    by_older = λ w _ h. h;
    by_update = λ w h e. record {
      in_step = handle_update-IsInStep x w law h e;
      same_spec = (handle_update-IsAlike x w e).spec;
    };
    by_scheduler = start_scheduler-IsDone;
    by_generation = set_generation-IsDone;
  }

  -- When `Reconcile` reads an instance whose generation calls for a creation or an update, every
  -- stored pointer leads to a cell, and the call succeeds, then in whatever orders the ranges visit,
  -- the maps of metrics, models and predictors are in step with the spec that was read, whatever
  -- they held before.
  pub reconcile-IsDone :
      (x : Outside F K) (aom : Aom) (w : World F K) {w' : World F K}
      → IsRanges x.ranges
      → IsSound w
      → IsNew aom
      → reconcile F K x (found aom) w ≡ (record { requeue = false; result = ok tt }, w')
      → IsDone aom.spec w'
  reconcile-IsDone x aom w law h n e =
      reconcile-leaves x (IsDone-IsLeft x law) aom w ((IsSound-IsKept x.ranges law).by_aom w aom h)
        n e
