-- ===== src/Session.antt =====
-- include/transport/session.hpp, include/transport/frame.hpp and src/transport/session.cpp: sessions
-- that carry messages over a stream. The sockets and TLS are parameters: what their calls return is
-- given as a list, one item for each call. The state is that of one thread; the atomicity of
-- `is_open`, the timeouts and the reserve of memory are not modelled.
pub mod Send
pub mod Connect
pub mod Delivery
pub mod Limits
pub mod Sound
pub mod Conversation
mod Tests
use madoka.Common.{
  ℕ, zero, suc, ◌+◌, ◌-◌, Bool, true, false, ◌&&◌, ◌||◌, List, [], ◌∷◌, ◌++◌, Option, none, some,
  length, take, drop, ltb, leb, ◌==◌, if◌then◌else◌, not, min,
}
use madoka.Bytes.{NodeId}
use madoka.Bytes.Slice.{ok, err, fault}
use madoka.Codec.{
  Message, CodecError, header_size, max_message_size, message_peek_size, message_decode,
}

abbrev pub max_recv_buffer_size : ℕ
max_recv_buffer_size = 8192

abbrev pub recv_chunk_size : ℕ
recv_chunk_size = 1024

-- A socket that is valid, and a TLS session that is alive with the id of its peer, are `some`.
pub record TransportSessionState : Type 0 where
  pub socket : Option ℕ
  pub tls : Option NodeId
  pub is_tls : Bool
  pub recv_buffer : List ℕ
  pub remote_endpoint : List ℕ
  pub peer_node_id : Option NodeId
  pub is_open : Bool

unfoldable pub transport_is_open : TransportSessionState → Bool
transport_is_open session = session.is_open

unfoldable pub transport_close : TransportSessionState → TransportSessionState
transport_close session = record session {
  is_open = false;
  tls = if session.is_tls then none else session.tls;
  socket = if session.is_tls then session.socket else none;
  recv_buffer = [];
}

-- What a call of `socket_recv` or `tls_receive` returns: bytes, of which there may be none; the TLS
-- peer's close notice; a timeout; another error.
pub data Read : Type 0 where
  received : List ℕ → Read
  peer_closed read_timed_out read_failed : Read

-- What `transport_receive` returns. `blocked` is a call that still waits when the list of reads is at
-- its end, `overrun` a read that has returned more than it was asked for, and `misread` a decoder that has read
-- outside its buffer. A session that the peer has closed says whether the error on an incomplete
-- message was written.
pub data Received : Type 0 where
  message : Message → Received
  session_closed : Received
  bad_header undecodable : CodecError → Received
  message_too_long : ℕ → Received
  buffer_exceeded : Received
  closed_by_peer : (incomplete : Bool) → Received
  timed_out failed blocked overrun misread : Received

-- What the loop does with the buffer before it reads.
pub data Attempt : Type 0 where
  deliver : Message → ℕ → Attempt
  reject : Received → Attempt
  read_more : Attempt

-- The test for room behind the tests of the header.
abbrev pub room_for : List ℕ → Attempt
room_for buffer =
    if leb max_recv_buffer_size (length buffer) then reject buffer_exceeded else read_more

unfoldable pub take_message : (buffer : List ℕ) → (expected_total : ℕ) → Attempt
take_message buffer expected_total =
    if ltb max_message_size expected_total
    then reject (message_too_long expected_total)
    else if leb expected_total (length buffer)
    then elim (message_decode (take expected_total buffer)) [
      | ok m ↦ deliver m expected_total
      | err e ↦ reject (undecodable e)
      | fault ↦ reject misread
    ]
    else room_for buffer

-- `with_error` is whether the caller wants the message on an error: only then does a header that is
-- not accepted end the session at once. A header in the buffer has a message for each refusal.
unfoldable pub attempt : (with_error : Bool) → (buffer : List ℕ) → Attempt
attempt with_error buffer =
    if leb header_size (length buffer)
    then elim (message_peek_size buffer) [
      | ok expected_total ↦ take_message buffer expected_total
      | err e ↦ if with_error then reject (bad_header e) else room_for buffer
      | fault ↦ reject misread
    ]
    else room_for buffer

-- The peer has closed: the session is closed first, and its buffer looked at then.
unfoldable pub peer_has_closed :
    (with_error : Bool) → TransportSessionState → Received × TransportSessionState
unfolding transport_close
peer_has_closed with_error session =
    let closed = transport_close session in
    (closed_by_peer (with_error && not (length closed.recv_buffer == 0)), closed)

abbrev pub append_chunk : TransportSessionState → List ℕ → TransportSessionState
append_chunk session chunk = record session { recv_buffer = session.recv_buffer ++ chunk }

-- The end of a call: what it returns, the session, and the reads that are left.
abbrev pub Outcome : Type 0
Outcome = Received × TransportSessionState × List Read

-- `while (true)`, on the reads that are to come.
unfoldable pub receive_loop : (with_error : Bool) → TransportSessionState → List Read → Outcome
receive_loop with_error session [] = elim (attempt with_error session.recv_buffer) [
  | deliver m n ↦ (message m, record session { recv_buffer = drop n session.recv_buffer }, [])
  | reject e ↦ (e, transport_close session, [])
  | read_more ↦ (blocked, session, [])
]
receive_loop with_error session (read ∷ reads) = elim (attempt with_error session.recv_buffer) [
  | deliver m n ↦
      (message m, record session { recv_buffer = drop n session.recv_buffer }, read ∷ reads)
  | reject e ↦ (e, transport_close session, read ∷ reads)
  | read_more ↦
      let to_read = min (max_recv_buffer_size - length session.recv_buffer) recv_chunk_size in
      elim read [
        | received chunk ↦
            let rest = receive_loop with_error (append_chunk session chunk) reads in
            let closed = peer_has_closed with_error session in
            if ltb to_read (length chunk)
            then (overrun, session, reads)
            else if length chunk == 0 && not session.is_tls
            then (closed.0, closed.1, reads)
            else rest
        | peer_closed ↦
            let closed = peer_has_closed with_error session in (closed.0, closed.1, reads)
        | read_timed_out ↦ (timed_out, session, reads)
        | read_failed ↦ (failed, transport_close session, reads)
      ]
]

unfoldable pub transport_receive : (with_error : Bool) → TransportSessionState → List Read → Outcome
unfolding receive_loop
transport_receive with_error session reads =
    if not session.is_open
    then (session_closed, session, reads)
    else receive_loop with_error session reads
