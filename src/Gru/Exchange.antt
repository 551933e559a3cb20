-- ===== src/Gru/Exchange.antt =====
-- How the GRU predictor talks to the Python service: the exchange of `Predict`, the request of
-- `Train`, and the socket of `WaitAndUpdate`. `encoding/json` and the network are arguments.
pub mod Answers
use aom.Base.{
  ℕ, Bool, true, false, Text, List, [], ◌∷◌, ◌++◌, Option, none, some, Error, Result, ok, err,
  panic, ◌>>=◌, codes, length, ◌==◌, ltb, if◌then◌else◌, or_panic,
}
use aom.Floats.{Floats}
use aom.Collector.{Worker}
use aom.Ptype.{PredictResult}
use aom.Socket.{
  SocketReq, empty_request, set_address, set_body, set_network, Peer, Read, eof, failed,
  socket_send_req,
}
use aom.Gru
use aom.Gru.{Gru, Request, Response}

abbrev pub unix : Text
unix = codes "unix"

-- The constant `RespRecvAdress`.
abbrev pub resp_recv_address : Text
resp_recv_address = codes "/tmp/rra.socket"

abbrev pub built : Text → Text → Option SocketReq
built address body = set_network unix (set_body body (set_address address (some empty_request)))

-- What the operating system answers to `WaitAndUpdate`: whether the socket's file exists, the
-- removal of a file, `Listen` at an address, `Accept`, and the reads of the connection.
pub record Listener : Type 0 where
  pub exists : Text → Bool
  pub remove : Text → Result (Unit {0})
  pub listen : Text → Result (Unit {0})
  pub accept : Result (Unit {0})
  pub reads : List Read

-- The loop over the reads, with a buffer of `size` bytes.
unfoldable pub wait_loop : ℕ → Text → List Read → Result Text
wait_loop size res [] = ok res
wait_loop size res (r ∷ rs) = elim r.error [
  | some eof ↦ ok (res ++ r.bytes)
  | some (failed e) ↦ err e
  | none ↦
      let filled = wait_loop size (res ++ r.bytes) rs in
      let again = wait_loop size res rs in
      if length r.bytes == size
      then filled
      else if ltb (length r.bytes) size
      then ok (res ++ r.bytes)
      else again
]

-- What arrives at the socket, which is bound anew.
unfoldable pub receive : Listener → Result Text
unfolding wait_loop
receive l = do
  _ ← if l.exists resp_recv_address then l.remove resp_recv_address else ok tt
  _ ← l.listen resp_recv_address
  _ ← l.accept
  wait_loop 1024 [] l.reads

module _ (F : Floats) where
  -- `json.Marshal` of a request and `json.Unmarshal` to a response.
  pub record Codec : Type 0 where
    pub marshal : Request F → Result Text
    pub unmarshal : Text → Result (Response F)

  -- The exchange of `Predict` at an address.
  unfoldable pub exchange : Codec → Peer → Text → Request F → Result (Response F)
  unfolding set_address set_body set_network socket_send_req
  exchange c peer address req = do
    body ← c.marshal req
    socket_req ← or_panic (built address body)
    let (socket_rsp, e) = socket_send_req socket_req peer
    _ ← e
    c.unmarshal socket_rsp

  unfoldable pub predict : Codec → Peer → Gru F → Worker F → Result (PredictResult F) × Worker F
  unfolding exchange Gru.predict
  predict c peer g w = Gru.predict F (exchange c peer g.address) g w

  -- The request of `Train`; a failure of `Close` is only logged.
  unfoldable pub post : Codec → Peer → Text → Request F → Result (Unit {0})
  post c peer address req = do body ← c.marshal req; _ ← peer.dial unix address; peer.write body

  unfoldable pub train : Codec → Peer → Gru F → Worker F → Result (Unit {0}) × Worker F
  unfolding post Gru.train
  train c peer g w = Gru.train F (post c peer g.address) g w

  unfoldable pub wait_and_update : Codec → Listener → Gru F → Result (Unit {0}) × Gru F
  unfolding receive Gru.wait_and_update
  wait_and_update c l g = Gru.wait_and_update F (do res ← receive l; c.unmarshal res) g
