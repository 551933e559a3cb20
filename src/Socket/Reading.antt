-- ===== src/Socket/Reading.antt =====
-- Which part of a response is read, and which error is returned.
use aom.Base.{
  ℕ, ◌<◌, Text, List, [], ◌∷◌, ◌++◌, none, ok, panic, ◌≡◌, ◌⊎◌, inl, inr, refl, sym, ◌∙◌, length,
  All, arith, append_assoc, Result-cases,
}
use aom.Base.Int.{pos_part}
use aom.Socket.{SocketReq, Read, Peer, fix_socket_req, read_loop, read_response, socket_send_req}

-- A `Read` that fills the buffer.
abbrev pub IsFull : ℕ → Read → Type 0
IsFull size r = (length r.bytes ≡ size) × (r.error ≡ none)

-- A `Read` that leaves a part of the buffer empty.
abbrev pub IsShort : ℕ → Read → Type 0
IsShort size r = (length r.bytes < size) × (r.error ≡ none)

abbrev pub concat : List Read → Text
concat [] = []
concat (r ∷ rs) = r.bytes ++ concat rs

read_loop_full :
    (size : ℕ) (full : List Read) (s : Read) (rest : List Read) (rsp : Text)
    → All (IsFull size) full
    → IsShort size s
    → read_loop size size rsp (full ++ s ∷ rest) ≡ rsp ++ (concat full ++ s.bytes)
unfolding read_loop
read_loop_full size [] s [] rsp a (h, e) = ground arith
read_loop_full size [] s (r ∷ rest) rsp a (h, e) = ground arith
read_loop_full size (r ∷ full) s rest rsp ((l, e), a) h =
    let more = read_loop_full size full s rest (rsp ++ r.bytes) a h in
    rw (e, l)
      (ground (
        arith,
        more,
        append_assoc rsp r.bytes (concat full ++ s.bytes),
        append_assoc r.bytes (concat full) s.bytes,
      ))

read_response_full :
    (size : ℕ) (full : List Read) (s : Read) (rest : List Read)
    → All (IsFull size) full
    → IsShort size s
    → read_response size (full ++ s ∷ rest) ≡ concat full ++ s.bytes
unfolding read_response read_loop
read_response_full size [] s [] a (h, e) = ground arith
read_response_full size [] s (r ∷ rest) a (h, e) = ground arith
read_response_full size (r ∷ full) s rest ((l, e), a) h =
    rw (e, l)
      (read_loop_full size full s rest r.bytes a h
        ∙ sym (append_assoc r.bytes (concat full) s.bytes))

-- When the connection stands and the request is written, the response is what the first reads bring
-- that fill the buffer, and then the first read that does not; what the peer sends behind it is
-- not read.
pub socket_send_req-reads :
    (req : SocketReq) (peer : Peer) (full : List Read) (s : Read) (rest : List Read)
    → let r = fix_socket_req req in
      peer.dial r.network r.address ≡ ok tt
      → peer.write r.body ≡ ok tt
      → All (IsFull (pos_part r.buffer_size)) full
      → IsShort (pos_part r.buffer_size) s
      → peer.reads ≡ full ++ s ∷ rest
      → socket_send_req req peer ≡ (concat full ++ s.bytes, peer.close)
unfolding socket_send_req
socket_send_req-reads req peer full s rest d w a h e =
    rw (d, w, e, read_response_full _ full s rest a h, socket_send_req) refl

-- Once the connection stands, the error that the caller gets is that of `Close`: a write or a read
-- that fails is not reported, unless the write panics.
pub socket_send_req-error :
    (req : SocketReq) (peer : Peer)
    → let r = fix_socket_req req in
      peer.dial r.network r.address ≡ ok tt
      → (peer.write r.body ≡ panic) ⊎ ((socket_send_req req peer).1 ≡ peer.close)
unfolding socket_send_req
socket_send_req-error req peer d = elim (Result-cases (peer.write (fix_socket_req req).body)) [
  | inl (u, e) ↦ inr (rw (d, e, socket_send_req) refl)
  | inr (inl (x, e)) ↦ inr (rw (d, e, socket_send_req) refl)
  | inr (inr e) ↦ inl e
]
