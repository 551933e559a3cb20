-- ===== src/Socket.antt =====
-- utils/socket.go: a request over a socket, and the loop that reads the response. What the network
-- answers is an argument.
pub mod Reading
use aom.Base.{
  ℕ, Bool, true, false, Text, List, [], ◌∷◌, ◌++◌, Option, none, some, Error, Result, ok, err,
  panic, codes, same, length, ◌==◌, if◌then◌else◌, not, ◌&&◌,
}
use aom.Base.Int.{ℤ, pos, pos_part, leb_ℤ}

pub record SocketReq : Type 0 where
  pub address : Text
  pub network : Text
  pub body : Text
  pub buffer_size : ℤ

-- `&utils.SocketReq{}`
abbrev pub empty_request : SocketReq
empty_request = record { address = []; network = []; body = []; buffer_size = pos 0 }

-- The methods that fill in a request. A nil request stays nil.
unfoldable pub set_address : Text → Option SocketReq → Option SocketReq
set_address address none = none
set_address address (some r) = some (record r { address = address })

unfoldable pub set_network : Text → Option SocketReq → Option SocketReq
set_network network none = none
set_network network (some r) = some (record r { network = network })

abbrev newline : Text
newline = 10 ∷ []

unfoldable pub set_body : Text → Option SocketReq → Option SocketReq
set_body body none = none
set_body body (some r) = some (record r { body = body ++ newline })

unfoldable pub set_buffer_size : ℤ → Option SocketReq → Option SocketReq
set_buffer_size n none = none
set_buffer_size n (some r) = some (record r { buffer_size = n })

unfoldable pub fix_socket_req : SocketReq → SocketReq
fix_socket_req req = record req {
  buffer_size = if leb_ℤ req.buffer_size (pos 0) then pos 1024 else req.buffer_size;
  network =
      if not (same req.network (codes "tcp"))
        && not (same req.network (codes "udp"))
        && not (same req.network (codes "unix"))
      then codes "tcp"
      else req.network;
}

-- The error of a `Read`.
pub data ReadError : Type 0 where
  eof : ReadError
  failed : Error → ReadError

-- What one `Read` answers: the bytes that it put into the buffer, and perhaps an error.
pub record Read : Type 0 where
  pub bytes : Text
  pub error : Option ReadError

-- The other end: how it answers `Dial`, `Write`, each `Read` in turn, and `Close`. Behind the last
-- answer every `Read` is at the end of the stream.
pub record Peer : Type 0 where
  pub dial : Text → Text → Result (Unit {0})
  pub write : Text → Result (Unit {0})
  pub reads : List Read
  pub close : Result (Unit {0})

-- The loop, behind a `Read` of `n` bytes. An error empties the response.
unfoldable pub read_loop : ℕ → ℕ → Text → List Read → Text
read_loop size n rsp [] = rsp
read_loop size n rsp (r ∷ rs) =
    let rest = read_loop size (length r.bytes) (rsp ++ r.bytes) rs in
    if n == size
    then (elim r.error [ none ↦ rest | some eof ↦ rsp | some (failed e) ↦ [] ])
    else rsp

unfoldable pub read_response : ℕ → List Read → Text
unfolding read_loop
read_response size [] = []
read_response size (r ∷ rs) = elim r.error [
  | none ↦ read_loop size (length r.bytes) r.bytes rs
  | some e ↦ []
]

-- The response and the error. Once the connection stands, the deferred function stores the answer
-- of `Close` in the result's error, whatever was returned there.
unfoldable pub socket_send_req : SocketReq → Peer → Text × Result (Unit {0})
unfolding fix_socket_req read_response
socket_send_req req peer =
    let r = fix_socket_req req in
    elim (peer.dial r.network r.address) [
      | err e ↦ ([], err e)
      | panic ↦ ([], panic)
      | ok _ ↦ elim (peer.write r.body) [
        | err e ↦ ([], peer.close)
        | panic ↦ ([], panic)
        | ok _ ↦ (read_response (pos_part r.buffer_size) peer.reads, peer.close)
      ]
    ]
