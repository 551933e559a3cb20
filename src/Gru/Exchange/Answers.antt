-- ===== src/Gru/Exchange/Answers.antt =====
-- What the predictor makes of the service's answers.
use aom.Base.{
  ℕ, Text, List, [], ◌∷◌, ◌++◌, Error, Result, ok, err, panic, ◌>>=◌, >>=-eq-ok, ◌≡◌, ◌⊎◌, inl, inr,
  refl, All, arith, append_assoc, external, false, true, Text-discrete,
}
use aom.Base.Int.{pos}
use aom.Floats.{Floats}
use aom.Socket.{Read, Peer, fix_socket_req, socket_send_req}
use aom.Socket.Reading.{IsFull, IsShort, concat, socket_send_req-reads}
use aom.Gru
use aom.Gru.{Gru, Request, Response}
use aom.Gru.Exchange.{
  unix, resp_recv_address, Listener, wait_loop, receive, Codec, exchange, wait_and_update,
}

-- The loop of `WaitAndUpdate` brings the reads that fill the buffer and the first that does not.
wait_loop_full :
    (size : ℕ) (full : List Read) (s : Read) (rest : List Read) (res : Text)
    → All (IsFull size) full
    → IsShort size s
    → wait_loop size res (full ++ s ∷ rest) ≡ ok (res ++ (concat full ++ s.bytes))
unfolding wait_loop
wait_loop_full size [] s rest res a (h, e) = ground arith
wait_loop_full size (r ∷ full) s rest res ((l, e), a) h =
    rw (e, l)
      (ground (
        arith,
        wait_loop_full size full s rest (res ++ r.bytes) a h,
        append_assoc res r.bytes (concat full ++ s.bytes),
        append_assoc r.bytes (concat full) s.bytes,
      ))

sent-reads :
    (peer : Peer) (address body : Text) (full : List Read) (s : Read) (rest : List Read)
    → peer.dial unix address ≡ ok tt
    → peer.write (body ++ 10 ∷ []) ≡ ok tt
    → All (IsFull 1024) full
    → IsShort 1024 s
    → peer.reads ≡ full ++ s ∷ rest
    → socket_send_req
        (record { address = address; network = unix; body = body ++ 10 ∷ []; buffer_size = pos 0 })
        peer
      ≡ (concat full ++ s.bytes, peer.close)
unfolding fix_socket_req Text-discrete
sent-reads peer address body full s rest d w a h e =
    socket_send_req-reads
      (record { address = address; network = unix; body = body ++ 10 ∷ []; buffer_size = pos 0 })
      peer full s rest d w a h e

module _ (F : Floats) where
  -- The update, from what was received.
  update-cases :
      (r : Result (Response F)) (g : Gru F)
      → ((e : Error) × (Gru.wait_and_update F r g ≡ (err e, g)))
        ⊎ (Gru.wait_and_update F r g ≡ (panic, g))
        ⊎ ((response : Response F) × (r ≡ ok response)
            × (response.error ≡ [])
            × (Gru.wait_and_update F r g
                ≡ (ok tt, record g { ready_to_predict = response.trained })))
  unfolding Gru.wait_and_update
  update-cases (err e) g = inl (e, refl)
  update-cases panic g = inr (inl refl)
  update-cases (ok response) g = elim (Text-discrete response.error []) [
    | yes h ↦ inr (inr (response, refl, h, ground arith))
    | no h ↦ inl (external 0, ground arith)
  ]

  -- When the service takes the connection and the request, the exchange of `Predict` ends with the
  -- error of `Close`, or decodes the reads that fill the buffer of 1024 bytes and the first read
  -- that does not.
  pub exchange-reads :
      (c : Codec F) (peer : Peer) (address : Text) (req : Request F) (body : Text)
      (full : List Read) (s : Read) (rest : List Read)
      → c.marshal req ≡ ok body
      → peer.dial unix address ≡ ok tt
      → peer.write (body ++ 10 ∷ []) ≡ ok tt
      → All (IsFull 1024) full
      → IsShort 1024 s
      → peer.reads ≡ full ++ s ∷ rest
      → exchange F c peer address req ≡ (peer.close >>= λ _. c.unmarshal (concat full ++ s.bytes))
  unfolding exchange
  exchange-reads c peer address req body full s rest m d w a h e =
      rw (m, sent-reads peer address body full s rest d w a h e) refl

  update-ready :
      (response : Response F) (g : Gru F)
      → response.error ≡ []
      → response.trained ≡ true
      → Gru.wait_and_update F (ok response) g ≡ (ok tt, record g { ready_to_predict = true })
  unfolding Gru.wait_and_update Text-discrete
  update-ready response g n t = rw (n, t, Gru.wait_and_update) refl

  -- `WaitAndUpdate` either fails and leaves the predictor as it was, or has read an answer with no
  -- error text at the fixed address, and the predictor is ready exactly if the answer says trained.
  pub wait_and_update-cases :
      (c : Codec F) (l : Listener) (g : Gru F)
      → ((e : Error) × (wait_and_update F c l g ≡ (err e, g)))
        ⊎ (wait_and_update F c l g ≡ (panic, g))
        ⊎ ((res : Text) × (response : Response F) × (receive l ≡ ok res)
            × (c.unmarshal res ≡ ok response)
            × (response.error ≡ [])
            × (wait_and_update F c l g ≡ (ok tt, record g { ready_to_predict = response.trained })))
  unfolding wait_and_update
  wait_and_update-cases c l g = elim (update-cases (receive l >>= c.unmarshal) g) [
    | inl failed ↦ inl failed
    | inr (inl crashed) ↦ inr (inl crashed)
    | inr (inr (response, e, none_said, done)) ↦
        let (res, e₁, e₂) = >>=-eq-ok (receive l) c.unmarshal e in
        inr (inr (res, response, e₁, e₂, none_said, done))
  ]

  -- When the answer to a training arrives at the fixed address, in reads that fill the buffer of
  -- 1024 bytes and one that does not, and says trained with no error text, the predictor is ready.
  pub wait_and_update-ready :
      (c : Codec F) (l : Listener) (g : Gru F) (full : List Read) (s : Read) (rest : List Read)
      (response : Response F)
      → l.exists resp_recv_address ≡ false
      → l.listen resp_recv_address ≡ ok tt
      → l.accept ≡ ok tt
      → All (IsFull 1024) full
      → IsShort 1024 s
      → l.reads ≡ full ++ s ∷ rest
      → c.unmarshal (concat full ++ s.bytes) ≡ ok response
      → response.error ≡ []
      → response.trained ≡ true
      → wait_and_update F c l g ≡ (ok tt, record g { ready_to_predict = true })
  unfolding wait_and_update receive
  wait_and_update-ready c l g full s rest response x b acc a h e u n t =
      let arrived : receive l ≡ ok (concat full ++ s.bytes) =
        rw (x, b, acc, e, receive) (wait_loop_full 1024 full s rest [] a h) in
      rw (arrived, u) (update-ready response g n t)
