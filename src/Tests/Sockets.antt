-- ===== src/Tests/Sockets.antt =====
-- The socket, and the GRU predictor behind it.
use aom.Base.{
  true, false, codes, Text, [], ◌∷◌, ◌≡◌, ◌⊎◌, refl, none, some, Error, Result, ok, err, panic,
  external, arith, Text-discrete,
}
use aom.Base.Int.{pos}
use aom.Socket.{SocketReq, Read, Peer, fix_socket_req, socket_send_req, failed}
use aom.Socket.Reading.{socket_send_req-reads, socket_send_req-error}
use aom.Gru.{Request, Response}
use aom.Gru.Exchange.{Listener, receive, Codec, exchange, wait_and_update}
use aom.Gru.Exchange.Answers.{exchange-reads, wait_and_update-cases}
use aom.Tests.Replicas.{whole}
use aom.Tests.Predictors.{made}

-- A buffer of two bytes.
abbrev ask : SocketReq
ask = record {
  address = codes "/tmp/uds_socket";
  network = codes "unix";
  body = codes "hi\n";
  buffer_size = pos 2;
}

abbrev bytes : Text → Read
bytes t = record { bytes = t; error = none }

-- A read that fills the buffer, and two that do not.
abbrev peer : Peer
peer = record {
  dial = λ _ _. ok tt;
  write = λ _. ok tt;
  reads = bytes (codes "ab") ∷ bytes (codes "c") ∷ bytes (codes "d") ∷ [];
  close = ok tt;
}

socket_send_req-reads_example : socket_send_req ask peer ≡ (codes "abc", ok tt)
unfolding fix_socket_req Text-discrete
socket_send_req-reads_example =
    socket_send_req-reads ask peer (bytes (codes "ab") ∷ []) (bytes (codes "c"))
      (bytes (codes "d") ∷ []) refl refl ((refl, refl), tt) (omega arith, refl) refl

-- The only read fails.
abbrev broken : Peer
broken = record peer { reads = record { bytes = []; error = some (failed (external 3)) } ∷ [] }

socket_send_req-error_example :
    (◌≡◌ {A = Result (Unit {0})} (ok tt) panic) ⊎ ((socket_send_req ask broken).1 ≡ ok tt)
socket_send_req-error_example = socket_send_req-error ask broken refl

abbrev answer : Response whole
answer = record { loss = pos 0; trained = true; prediction = pos 7 ∷ []; error = [] }

-- Every request is one byte, and every text is the same answer.
abbrev codec : Codec whole
codec = record { marshal = λ _. ok (codes "q"); unmarshal = λ _. ok answer }

abbrev request : Request whole
request = record {
  key = [];
  predict_history = [];
  train_history = [];
  resp_recv_address = [];
  look_back = pos 1;
  look_forward = pos 1;
  batch_size = pos 0;
  epochs = pos 0;
  n_layers = pos 0;
}

exchange-reads_example : exchange whole codec peer (codes "/tmp/uds_socket") request ≡ ok answer
exchange-reads_example =
    exchange-reads whole codec peer (codes "/tmp/uds_socket") request (codes "q") []
      (bytes (codes "ab")) (bytes (codes "c") ∷ bytes (codes "d") ∷ []) refl refl refl tt
      (omega arith, refl) refl

abbrev listener : Listener
listener = record {
  exists = λ _. false;
  remove = λ _. ok tt;
  listen = λ _. ok tt;
  accept = ok tt;
  reads = bytes (codes "{}") ∷ [];
}

wait_and_update-cases_example :
    ((e : Error) × (wait_and_update whole codec listener made ≡ (err e, made)))
    ⊎ (wait_and_update whole codec listener made ≡ (panic, made))
    ⊎ ((res : Text) × (response : Response whole) × (receive listener ≡ ok res)
        × (codec.unmarshal res ≡ ok response)
        × (response.error ≡ [])
        × (wait_and_update whole codec listener made
            ≡ (ok tt, record made { ready_to_predict = response.trained })))
wait_and_update-cases_example = wait_and_update-cases whole codec listener made
