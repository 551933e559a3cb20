-- ===== src/Gru.antt =====
-- predictor/GRU: the predictor that asks a Python service over a socket. The service's process and
-- the sockets are outside the model: what an exchange of a request answers is an argument.
pub mod Safety
pub mod Exchange
pub mod Window
use aom.Base.{
  ℕ, ◌+◌, ◌-◌, ◌/◌, Bool, true, false, Text, List, [], ◌∷◌, map, Option, none, some, Error, Result,
  ok, err, panic, ◌>>=◌, no_sufficient_data, unready_to_predict, external, same, codes, length,
  drop, if◌then◌else◌, ltb, get_elem?, or_panic,
}
use aom.Base.Int.{ℤ, pos, negsuc, pos_part, neg_part, ltb_ℤ, div_ℤ}
use aom.Base.Atoi.{atoi}
use aom.Base.Dict.{Dict}
use aom.Floats.{Floats}
use aom.Collector.{Sample, Worker, send, data_cap}
use aom.Ptype.{Json, PredictResult, Param}

-- `xs[len(xs)-n:]`, which panics when the start lies outside the slice.
unfoldable pub suffix {ℓ} : {A : Type ℓ} → ℤ → List A → Result (List A)
suffix (negsuc n) xs = panic
suffix (pos n) xs = if ltb (length xs) n then panic else ok (drop (length xs - n) xs)

-- `xs[len(xs)-1]`
unfoldable pub last_of {ℓ} : {A : Type ℓ} → List A → Result A
last_of [] = panic
last_of (x ∷ []) = ok x
last_of (x ∷ y ∷ xs) = last_of (y ∷ xs)

-- `basetype.GRU`
pub record GruModel : Type 0 where
  pub address : Text
  pub resp_recv_address : Text
  pub look_back : ℤ
  pub look_forward : ℤ
  pub batch_size : ℤ
  pub train_size : ℤ
  pub epochs : ℤ
  pub n_layers : ℤ

module _ (F : Floats) where
  open F use {Float64}

  pub record Request : Type 0 where
    pub key : Text
    pub predict_history : List Float64
    pub train_history : List Float64
    pub resp_recv_address : Text
    pub look_back : ℤ
    pub look_forward : ℤ
    pub batch_size : ℤ
    pub epochs : ℤ
    pub n_layers : ℤ

  pub record Response : Type 0 where
    pub loss : Float64
    pub trained : Bool
    pub prediction : List Float64
    pub error : Text

  pub record Gru : Type 0 where
    pub metric_history : List (Sample F)
    pub with_model_key : Text
    pub model : GruModel
    pub collector_worker : ℕ
    pub ready_to_predict : Bool
    pub address : Text
    pub debug : Bool

  -- The attributes, in the order in which they are parsed; the first that fails is the error.
  unfoldable pub parse_model : Json → Dict Text → Result GruModel
  unfolding atoi
  parse_model json attr = do
    look_back ← atoi (json attr (codes "look_back"))
    look_forward ← atoi (json attr (codes "look_forward"))
    batch_size ← atoi (json attr (codes "batch_size"))
    train_size ← atoi (json attr (codes "train_size"))
    epochs ← atoi (json attr (codes "epochs"))
    n_layers ← atoi (json attr (codes "n_layers"))
    ok (record {
      address = json attr (codes "address");
      resp_recv_address = json attr (codes "resp_recv_address");
      look_back = look_back;
      look_forward = look_forward;
      batch_size = batch_size;
      train_size = train_size;
      epochs = epochs;
      n_layers = n_layers;
    })

  -- `New`, with the worker at the collector's address. It takes the samples that are buffered.
  unfoldable pub new : Json → Param → Worker F → Result (Gru × Worker F)
  unfolding parse_model send
  new json p w = do
    model ← parse_model json p.model
    let (history, w') = send F w
    ok (
      record {
        metric_history = history;
        with_model_key = p.with_model_key;
        model = model;
        collector_worker = p.metric_collector;
        ready_to_predict = false;
        address = model.address;
        debug = same (json p.model (codes "debug")) (codes "true");
      },
      w',
    )

  -- The values of samples, with no time stamps.
  abbrev pub values : List (Sample F) → List Float64
  values = map (λ m. m.value)

  -- The part of `Predict` behind the exchange.
  abbrev pub answer : List Float64 → Response → Result (PredictResult F)
  answer predict_history response =
      if response.trained
      then (do
        start ← last_of predict_history
        ok (record {
          start_metric = start;
          loss = response.loss;
          predict_metric = response.prediction;
        }))
      else err unready_to_predict

  abbrev pub predict_request : Gru → List Float64 → Request
  predict_request g predict_history = record {
    key = g.with_model_key;
    predict_history = predict_history;
    train_history = [];
    resp_recv_address = [];
    look_back = g.model.look_back;
    look_forward = g.model.look_forward;
    batch_size = pos 0;
    epochs = pos 0;
    n_layers = pos 0;
  }

  -- `exchange` is the request marshalled, sent over the socket, and the answer unmarshalled.
  unfoldable pub predict :
      (Request → Result Response) → Gru → Worker F → Result (PredictResult F) × Worker F
  unfolding data_cap send suffix last_of
  predict exchange g w =
      if g.ready_to_predict
      then (if ltb_ℤ (pos (data_cap F w)) g.model.look_forward
          then (err no_sufficient_data, w)
          else let (temp_data, w') = send F w in
            (
              (do
                predict_data ← suffix g.model.look_back temp_data
                response ← exchange (predict_request g (values predict_data))
                answer (values predict_data) response),
              w',
            ))
      else (err unready_to_predict, w)

  abbrev train_request : Gru → List Float64 → Request
  train_request g train_history = record {
    key = g.with_model_key;
    predict_history = [];
    train_history = train_history;
    resp_recv_address = g.model.resp_recv_address;
    look_back = g.model.look_back;
    look_forward = g.model.look_forward;
    batch_size = div_ℤ g.model.train_size 10;
    epochs = g.model.epochs;
    n_layers = g.model.n_layers;
  }

  -- `post` is the request marshalled and written to the socket. On success a goroutine waits for
  -- the answer: `wait_and_update`.
  unfoldable pub train :
      (Request → Result (Unit {0})) → Gru → Worker F → Result (Unit {0}) × Worker F
  unfolding send suffix
  train post g w =
      if ltb_ℤ (pos (length g.metric_history)) g.model.train_size
      then (err no_sufficient_data, w)
      else let (temp_data, w') = send F w in
        (
          (do
            train_data ← suffix g.model.train_size temp_data
            post (train_request g (values train_data))),
          w',
        )

  -- `received` is what came over the answer socket, unmarshalled.
  unfoldable pub wait_and_update : Result Response → Gru → Result (Unit {0}) × Gru
  wait_and_update (err e) g = (err e, g)
  wait_and_update panic g = (panic, g)
  wait_and_update (ok resp) g =
      if same resp.error []
      then (ok tt, record g { ready_to_predict = resp.trained })
      else (err (external 0), g)
