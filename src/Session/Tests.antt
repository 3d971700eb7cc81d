-- ===== src/Session/Tests.antt =====
-- Concrete sessions, and the theorems on them.
use madoka.Common.{
  ◌&&◌, ℕ, ◌≤◌, ◌≡◌, ◌≢◌, ◌⊎◌, refl, true, false, List, [], ◌∷◌, ◌++◌, none, some, arith, length,
  map, All,
}
use madoka.Bytes.{NodeId, IsByte, zero_id}
use madoka.Codec.{
  Message, message_validate, message_encode, message_peek_size, message_decode, unsupported_version,
}
use madoka.Session.{
  TransportSessionState, Read, received, peer_closed, read_timed_out, message, blocked,
  closed_by_peer, bad_header, misread, attempt, take_message, receive_loop, transport_receive,
  transport_close, peer_has_closed,
}
use madoka.Session.Delivery.{IsChunk, flatten, frames, receive_times, stream_delivered}
use madoka.Session.Limits.{keeps_open, receive_lem}
use madoka.Session.Sound.{bytes_of, receive-message}
use madoka.Session.Send.{Calls, sent, transport_send, socket_send_all, write_loop}
use madoka.Session.Conversation.{
  transport_send_ends, send_each, message_of, sent_is_received, TakesSome,
}
use madoka.Session.Connect.{
  TransportServerState, Arrival, transport_accept, is_rejected, accept_lem, accept_tls, Departure,
  transport_connect_tls, connect_tls_lem,
}

abbrev two_bytes : Message
two_bytes = record { version = 1; type = 1; payload = 7 ∷ 8 ∷ [] }

abbrev no_bytes : Message
no_bytes = record { version = 1; type = 4; payload = [] }

two_bytes_valid : message_validate two_bytes ≡ none
unfolding message_validate
two_bytes_valid = refl

no_bytes_valid : message_validate no_bytes ≡ none
unfolding message_validate
no_bytes_valid = refl

-- A session over a plain socket.
abbrev plain_session : TransportSessionState
plain_session = record {
  socket = some 5;
  tls = none;
  is_tls = false;
  recv_buffer = [];
  remote_endpoint = [];
  peer_node_id = none;
  is_open = true;
}

-- Two frames and one byte, in three reads.
abbrev three_chunks : List (List ℕ)
three_chunks = (1 ∷ 1 ∷ 0 ∷ []) ∷ (2 ∷ 7 ∷ 8 ∷ 1 ∷ 4 ∷ []) ∷ (0 ∷ 0 ∷ 1 ∷ []) ∷ []

chunks-IsChunk : All IsChunk three_chunks
chunks-IsChunk = ground arith

abbrev both : List Message
both = two_bytes ∷ no_bytes ∷ []

both_framed : flatten three_chunks ≡ frames both ++ (1 ∷ [])
unfolding message_encode
both_framed = refl

stream_delivered_example :
    (b : List ℕ) × (left : List (List ℕ)) × (receive_times true 2 plain_session
        (map received three_chunks)
      ≡ (map message both, record plain_session { recv_buffer = b }, map received left))
    × (b ++ flatten left ≡ 1 ∷ [])
stream_delivered_example =
    stream_delivered true both (1 ∷ []) three_chunks plain_session refl
      (two_bytes_valid, (no_bytes_valid, tt)) chunks-IsChunk both_framed

abbrev some_reads : List Read
some_reads = received (1 ∷ 1 ∷ 0 ∷ []) ∷ peer_closed ∷ []

-- The peer closes in the middle of a frame: the error on an incomplete message is not written.
closed_in_frame :
    transport_receive true plain_session some_reads
    ≡ (closed_by_peer false, record plain_session { socket = none; is_open = false }, [])
unfolding transport_receive receive_loop attempt message_peek_size take_message transport_close
    peer_has_closed
closed_in_frame = refl

receive_example :
    let r = transport_receive true plain_session some_reads in
    (r.1.is_open ≡ keeps_open r.0)
    × ((r.1.is_open ≡ true) ⊎ (r.1.recv_buffer ≡ []))
    × (length r.1.recv_buffer ≤ 8192)
    × (r.0 ≢ misread)
    × (r.0 ≢ closed_by_peer true)
receive_example = receive_lem true plain_session some_reads refl (omega arith)

abbrev wrong_version : List Read
wrong_version = received (9 ∷ 9 ∷ 9 ∷ 9 ∷ []) ∷ []

-- A header of another version ends the session where the caller wants an error.
wrong_version_seen :
    transport_receive true plain_session wrong_version
    ≡ (bad_header (unsupported_version 9), transport_close plain_session, [])
unfolding transport_receive receive_loop attempt message_peek_size transport_close
wrong_version_seen = refl

-- It goes unnoticed where the caller does not.
wrong_version_unseen :
    transport_receive false plain_session wrong_version
    ≡ (blocked, record plain_session { recv_buffer = 9 ∷ 9 ∷ 9 ∷ 9 ∷ [] }, [])
unfolding transport_receive receive_loop attempt message_peek_size
wrong_version_unseen = refl

abbrev one_read : List Read
one_read = received (1 ∷ 1 ∷ 0 ∷ 2 ∷ 7 ∷ 8 ∷ 1 ∷ []) ∷ read_timed_out ∷ []

one_received :
    transport_receive true plain_session one_read
    ≡ (message two_bytes, record plain_session { recv_buffer = 1 ∷ [] }, read_timed_out ∷ [])
unfolding transport_receive receive_loop attempt message_peek_size take_message message_decode
one_received = refl

one_read-bytes : All IsByte (bytes_of one_read)
one_read-bytes = ground arith

receive-message_example :
    (message_validate two_bytes ≡ none)
    × (1 ∷ 1 ∷ 0 ∷ 2 ∷ 7 ∷ 8 ∷ 1 ∷ [] ≡ message_encode two_bytes ++ (1 ∷ []))
receive-message_example =
    receive-message true plain_session (record plain_session { recv_buffer = 1 ∷ [] }) one_read
      (read_timed_out ∷ []) two_bytes refl tt one_read-bytes one_received

abbrev slow_calls : Calls
slow_calls = some 4 ∷ some 1 ∷ some 1 ∷ some 1 ∷ some 1 ∷ some 1 ∷ []

slow_calls-TakesSome : All TakesSome slow_calls
slow_calls-TakesSome = ground arith

transport_send_ends_example : (transport_send plain_session two_bytes slow_calls).0 ≡ sent
transport_send_ends_example =
    transport_send_ends plain_session two_bytes slow_calls refl refl two_bytes_valid
      slow_calls-TakesSome (unfold message_encode in omega arith)

abbrev outbox : List (Message × Calls)
outbox = (two_bytes, slow_calls) ∷ (no_bytes, some 4 ∷ []) ∷ []

outbox_sent : All (λ x. x ≡ sent) (send_each plain_session outbox).0
unfolding send_each transport_send socket_send_all write_loop message_encode
outbox_sent = (refl, (refl, tt))

outbox_bytes :
    (1 ∷ 1 ∷ 0 ∷ []) ++ ((2 ∷ 7 ∷ 8 ∷ 1 ∷ []) ++ ((4 ∷ 0 ∷ 0 ∷ []) ++ []))
    ≡ (send_each plain_session outbox).2
unfolding send_each transport_send socket_send_all write_loop message_encode
outbox_bytes = refl

abbrev outbox_chunks : List (List ℕ)
outbox_chunks = (1 ∷ 1 ∷ 0 ∷ []) ∷ (2 ∷ 7 ∷ 8 ∷ 1 ∷ []) ∷ (4 ∷ 0 ∷ 0 ∷ []) ∷ []

outbox-IsChunk : All IsChunk outbox_chunks
outbox-IsChunk = ground arith

sent_is_received_example :
    (b : List ℕ) × (left : List (List ℕ)) × (receive_times true 2 plain_session
        (map received outbox_chunks)
      ≡ (
        map message (map message_of outbox),
        record plain_session { recv_buffer = b },
        map received left,
      ))
    × (b ++ flatten left ≡ [])
sent_is_received_example =
    sent_is_received true plain_session plain_session outbox outbox_chunks outbox_sent refl refl
      outbox-IsChunk outbox_bytes

abbrev handshaken : Departure
handshaken = record {
  sock = some 7;
  context_init = true;
  session_init = true;
  handshake = some zero_id;
}

connect_tls_example :
    let r = transport_connect_tls plain_session (97 ∷ []) 80 (some zero_id) handshaken in
    (r.1 ≡ r.0.is_open)
    × ((r.1 ≡ false)
        ⊎ ((id : NodeId) × (handshaken.handshake ≡ some id)
            × (r.0.peer_node_id ≡ some id)
            × ((some zero_id ≡ none) ⊎ (some zero_id ≡ some id))))
connect_tls_example = connect_tls_lem plain_session (97 ∷ []) 80 (some zero_id) handshaken

abbrev tls_server : TransportServerState
tls_server = record {
  listen_socket = some 3;
  tls_ctx = true;
  is_tls = true;
  bind_address = [];
  port = 80;
  peer_validator = some (λ id. false);
  is_listening = true;
}

abbrev visitor : Arrival
visitor = record { client = some (9, []); session_init = true; handshake = some zero_id }

-- A peer that the validator rejects is dropped.
visitor_rejected : transport_accept tls_server plain_session visitor ≡ (
  record plain_session {
    socket = none;
    is_tls = true;
    peer_node_id = some zero_id;
    is_open = false;
  },
  false,
)
unfolding transport_accept accept_tls transport_close
visitor_rejected = refl

abbrev open_server : TransportServerState
open_server = record tls_server { peer_validator = some (λ id. true) }

let_in : (transport_accept open_server plain_session visitor).1 ≡ true
unfolding transport_accept accept_tls
let_in = refl

accept_example :
    let r = transport_accept open_server plain_session visitor in
    (r.1 ≡ (true && r.0.is_open))
    × ((r.0 ≡ plain_session) ⊎ (true ≡ true))
    × ((r.1 ≡ false)
        ⊎ ((fd : ℕ) × (endpoint : List ℕ) × (visitor.client ≡ some (fd, endpoint))
            × (r.0.socket ≡ some fd)
            × (r.0.remote_endpoint ≡ endpoint)
            × (r.0.is_tls ≡ true)
            × ((true ≡ false)
                ⊎ ((id : NodeId) × (visitor.handshake ≡ some id)
                    × (r.0.peer_node_id ≡ some id)
                    × (is_rejected open_server.peer_validator id ≡ false)))))
accept_example = accept_lem open_server plain_session visitor
