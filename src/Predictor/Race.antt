-- ===== src/Predictor/Race.antt =====
-- Two goroutines of one round whose predictors share a worker: two models of one metric. `Predict`
-- calls the worker twice, `DataCap` in its check and `Send` behind it. The worker has no lock, so
-- each access of a call to the worker's buffer is a step of its own: the length that `DataCap`
-- reads, and in `Send` the length for `make`, the copy, and the empty buffer that is stored. The
-- other goroutine may come in between. One access is taken to be atomic.
pub mod Schedules
pub mod Outcomes
use aom.Base.{
  ℕ, zero, suc, Text, List, [], ◌∷◌, length, Result, ok, err, panic, no_sufficient_data,
  unready_to_predict, ◌>>=◌, if◌then◌else◌,
}
use aom.Base.Int.{ℤ, pos, ltb_ℤ}
use aom.Floats.{Floats}
use aom.Collector.{Sample, Worker, send, data_cap}
use aom.Ptype.{PredictResult}
use aom.Gru
use aom.Gru.{Request, Response, suffix, last_of, values, answer, predict_request}
use aom.HoltWinter
use aom.HoltWinter.{triple_exponential_smoothing}
use aom.Predictor.{Predictor, gru, holt_winter}

module _ (F : Floats) where
  open F use {Float64}

  abbrev Exchange : Type 0
  Exchange = Request F → Result (Response F)

  -- The checks at the start of `Predict`: what they answer, if it is an error.
  unfoldable pub check : Predictor F → Worker F → Result (Unit {0})
  unfolding data_cap
  check (gru g) w =
      if g.ready_to_predict
      then (if ltb_ℤ (pos (data_cap F w)) g.model.look_forward
          then err no_sufficient_data
          else ok tt)
      else err unready_to_predict
  check (holt_winter p) w =
      if ltb_ℤ (pos (data_cap F w)) p.look_backward then err no_sufficient_data else ok tt

  -- `collector.Metric{}`, as `make` fills the slice.
  abbrev pub zero_sample : Sample F
  zero_sample = record { value = F.zero_float; time_stamp = pos 0 }

  -- `make` of a length and `copy` of a buffer into it: what does not fit is left out, and zero
  -- values stay where the buffer is too short.
  unfoldable pub copied : ℕ → List (Sample F) → List (Sample F)
  copied zero data_ = []
  copied (suc n) [] = zero_sample ∷ copied n []
  copied (suc n) (x ∷ xs) = x ∷ copied n xs

  -- `w.data = make([]collector.Metric, 0)`
  unfoldable pub reset : Worker F → Worker F
  reset w = record w { samples = [] }

  -- What `Predict` makes of the samples that `Send` hands over.
  unfoldable pub digest : Exchange → Predictor F → List (Sample F) → Result (PredictResult F)
  unfolding suffix last_of triple_exponential_smoothing
  digest exchange (gru g) temp_data = do
    predict_data ← suffix g.model.look_back temp_data
    response ← exchange (predict_request F g (values F predict_data))
    answer F (values F predict_data) response
  digest exchange (holt_winter p) sent = do
    metrics ← suffix p.look_backward sent
    let series = values F metrics
    pred_metrics ← triple_exponential_smoothing F p series
    start_metric ← last_of series
    ok (record {
      start_metric = start_metric;
      loss = F.sub F.zero_float F.one_float;
      predict_metric = pred_metrics;
    })

  -- How far a goroutine is with `Predict`: its check has passed, it has the slice of a length, it
  -- has copied, or it is at the end.
  pub data Phase : Type 0 where
    waiting passed : Phase
    sized : ℕ → Phase
    holding : List (Sample F) → Phase
    ended : Result (PredictResult F) → Phase

  -- What a goroutine is up to behind the check.
  abbrev pub checked : Result (Unit {0}) → Phase
  checked (ok _) = passed
  checked (err e) = ended (err e)
  checked panic = ended panic

  -- The accesses of one goroutine. What follows the last one does not touch the worker.
  pub data Move (exchange : Exchange) (p : Predictor F)
      : Worker F → Phase → Worker F → Phase → Type 0 where
    checks : (w : Worker F) → Move exchange p w waiting w (checked (check p w))
    makes : (w : Worker F) → Move exchange p w passed w (sized (length w.samples))
    copies : (w : Worker F) (n : ℕ) → Move exchange p w (sized n) w (holding (copied n w.samples))
    resets :
        (w : Worker F) (sent : List (Sample F))
        → Move exchange p w (holding sent) (reset w) (ended (digest exchange p sent))

  pub record Shared : Type 0 where
    pub worker : Worker F
    pub first : Phase
    pub second : Phase

  -- The accesses of the two goroutines, in any order.
  pub data Step (exchange : Exchange) (p q : Predictor F) : Shared → Shared → Type 0 where
    by_first :
        {v w : Worker F} {a a' : Phase} (b : Phase)
        → Move exchange p v a w a'
        → Step exchange p q
            (record { worker = v; first = a; second = b })
            (record { worker = w; first = a'; second = b })
    by_second :
        {v w : Worker F} (a : Phase) {b b' : Phase}
        → Move exchange q v b w b'
        → Step exchange p q
            (record { worker = v; first = a; second = b })
            (record { worker = w; first = a; second = b' })

  -- The states behind a schedule of the two goroutines, from a worker that both will call.
  pub data Reach (exchange : Exchange) (p q : Predictor F) (w : Worker F) : Shared → Type 0 where
    started : Reach exchange p q w (record { worker = w; first = waiting; second = waiting })
    stepped :
        {s t : Shared} → Reach exchange p q w s → Step exchange p q s t → Reach exchange p q w t

  -- The number of samples that `Predict` cuts out of what `Send` hands over.
  abbrev pub window : Predictor F → ℤ
  window (gru g) = g.model.look_back
  window (holt_winter p) = p.look_backward
