-- ===== src/Predictor.antt =====
-- predictor/predictor.go: a predictor of either kind, chosen by the type at the end of its key.
pub mod Safety
pub mod Race
pub mod Made
use aom.Base.{ℕ, Text, Result, ok, err, panic, unknown_predictor, same, if◌then◌else◌}
use aom.Basetype
use aom.Floats.{Floats}
use aom.Collector.{Worker}
use aom.Ptype.{Json, PredictResult, Param}
use aom.Gru
use aom.Gru.{Gru, Request, Response}
use aom.HoltWinter
use aom.HoltWinter.{HoltWinter}
use aom.Utils.Keys.{get_model_type}

module _ (F : Floats) where
  -- The interface `Predictor`, by its two implementations.
  pub data Predictor : Type 0 where
    gru : Gru F → Predictor
    holt_winter : HoltWinter F → Predictor

  unfoldable pub get_type : Predictor → Text
  get_type (gru g) = Basetype.gru
  get_type (holt_winter p) = Basetype.holt_winter

  unfoldable pub key : Predictor → Text
  key (gru g) = g.with_model_key
  key (holt_winter p) = p.with_model_key

  abbrev pub worker_of : Predictor → ℕ
  worker_of (gru g) = g.collector_worker
  worker_of (holt_winter p) = p.collector_worker

  unfoldable pub predict :
      (Request F → Result (Response F)) → Predictor → Worker F → Result (PredictResult F) × Worker F
  unfolding Gru.predict HoltWinter.predict
  predict exchange (gru g) w = Gru.predict F exchange g w
  predict exchange (holt_winter p) w = HoltWinter.predict F p w

  unfoldable pub train :
      (Request F → Result (Unit {0})) → Predictor → Worker F → Result (Unit {0}) × Worker F
  unfolding Gru.train HoltWinter.train
  train post (gru g) w = Gru.train F post g w
  train post (holt_winter p) w = (HoltWinter.train F p, w)

  unfoldable pub new_gru : Result (Gru F × Worker F) → Worker F → Result Predictor × Worker F
  new_gru (ok (g, w')) w = (ok (gru g), w')
  new_gru (err e) w = (err e, w)
  new_gru panic w = (panic, w)

  unfoldable pub new_holt_winter : Result (HoltWinter F) → Worker F → Result Predictor × Worker F
  new_holt_winter (ok p) w = (ok (holt_winter p), w)
  new_holt_winter (err e) w = (err e, w)
  new_holt_winter panic w = (panic, w)

  -- `NewPredictor`, with the worker at the collector's address.
  unfoldable pub new_predictor : Json → Param → Worker F → Result Predictor × Worker F
  unfolding get_model_type Gru.new HoltWinter.new new_gru new_holt_winter
  new_predictor json p w = elim (get_model_type p.with_model_key) [
    | ok type ↦
        if same type Basetype.gru
        then new_gru (Gru.new F json p w) w
        else if same type Basetype.holt_winter
        then new_holt_winter (HoltWinter.new F json p) w
        else (err unknown_predictor, w)
    | err e ↦ (err e, w)
    | panic ↦ (panic, w)
  ]
