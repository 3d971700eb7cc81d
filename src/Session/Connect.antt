-- ===== src/Session/Connect.antt =====
-- How sessions begin in src/transport/session.cpp: the server and its `accept`, the two `connect`s. What
-- the calls of the socket and of TLS return is given with each operation; a null pointer is not
-- modelled. An endpoint and an address are their bytes.
use madoka.Common.{
  Bool-cases, ℕ, ◌≡◌, ◌⊎◌, refl, Bool, true, false, ◌&&◌, List, Option, none, some, arith,
  if◌then◌else◌, not, inl, inr, Option-cases,
}
use madoka.Bytes.{NodeId, bytes_eq, bytes_eq_iff}
use madoka.Config.Endpoint.{format_endpoint}
use madoka.Session.{TransportSessionState, transport_close}

pub record TransportServerState : Type 0 where
  pub listen_socket : Option ℕ
  pub tls_ctx : Bool
  pub is_tls : Bool
  pub bind_address : List ℕ
  pub port : ℕ
  pub peer_validator : Option (NodeId → Bool)
  pub is_listening : Bool

unfoldable pub transport_server_close : TransportServerState → TransportServerState
transport_server_close server = record server {
  listen_socket = none;
  tls_ctx = if server.is_tls then false else server.tls_ctx;
  is_listening = false;
}

unfoldable pub transport_server_init :
    TransportServerState → ℕ → List ℕ → TransportServerState × Bool
unfolding transport_server_close
transport_server_init server port bind_address = (
  record (transport_server_close server) {
    is_tls = false;
    bind_address = bind_address;
    port = port;
    peer_validator = none;
    is_listening = false;
  },
  true,
)

-- `context` is what `tls_context_init` returns.
unfoldable pub transport_server_init_tls :
    TransportServerState
    → (context : Bool) → ℕ
    → List ℕ
    → Option (NodeId → Bool)
    → TransportServerState × Bool
unfolding transport_server_close
transport_server_init_tls server context port bind_address peer_validator =
    let closed = transport_server_close server in
    if not context then (closed, false) else (
      record closed {
        tls_ctx = true;
        is_tls = true;
        bind_address = bind_address;
        port = port;
        peer_validator = peer_validator;
        is_listening = false;
      },
      true,
    )

-- What `socket_create_tcp`, `socket_bind` and `socket_listen` return. The options that are set on the
-- socket are left out.
unfoldable pub transport_server_start :
    TransportServerState
    → (created : Option ℕ) → (bound listening : Bool) → TransportServerState × Bool
transport_server_start server created bound listening =
    let stopped = record server { listen_socket = none; is_listening = false } in
    elim created [
      | none ↦ (stopped, false)
      | some fd ↦
          if not bound
          then (stopped, false)
          else if not listening
          then (stopped, false)
          else (record stopped { listen_socket = some fd; is_listening = true }, true)
    ]

-- What `socket_accept` returns with the endpoint, `tls_session_init`, and `tls_handshake` with the
-- id of the peer.
pub record Arrival : Type 0 where
  pub client : Option (ℕ × List ℕ)
  pub session_init : Bool
  pub handshake : Option NodeId

-- `server->peer_validator && !server->peer_validator(id)`
abbrev pub is_rejected : Option (NodeId → Bool) → NodeId → Bool
is_rejected none id = false
is_rejected (some validator) id = not (validator id)

-- The part of `transport_accept` for a TLS server, on the session that has its socket.
unfoldable pub accept_tls :
    TransportServerState → TransportSessionState → Arrival → TransportSessionState × Bool
accept_tls server session arrival =
    let dropped = record session { tls = none; socket = none } in
    if not arrival.session_init then (dropped, false) else elim arrival.handshake [
      | none ↦ (dropped, false)
      | some id ↦
          if is_rejected server.peer_validator id
          then (record dropped { peer_node_id = some id }, false)
          else (record session { tls = some id; peer_node_id = some id; is_open = true }, true)
    ]

unfoldable pub transport_accept :
    TransportServerState → TransportSessionState → Arrival → TransportSessionState × Bool
unfolding transport_close accept_tls
transport_accept server out_session arrival =
    let session = transport_close out_session in
    if not server.is_listening then (out_session, false) else elim arrival.client [
      | none ↦ (session, false)
      | some (fd, endpoint) ↦
          let connected = record session {
            socket = some fd;
            remote_endpoint = endpoint;
            is_tls = server.is_tls;
          } in
          if server.is_tls
          then accept_tls server connected arrival
          else (record connected { is_open = true }, true)
    ]

-- `sock` is what `socket_connect` returns.
unfoldable pub transport_connect :
    TransportSessionState
    → (host : List ℕ) (port : ℕ) (sock : Option ℕ) → TransportSessionState × Bool
unfolding transport_close format_endpoint
transport_connect session host port sock = elim sock [
  | none ↦ (transport_close session, false)
  | some fd ↦ (
    record (transport_close session) {
      socket = some fd;
      is_tls = false;
      remote_endpoint = format_endpoint host port;
      peer_node_id = none;
      is_open = true;
    },
    true,
  )
]

-- What `socket_connect`, `tls_context_init`, `tls_session_init` and `tls_handshake` return.
pub record Departure : Type 0 where
  pub sock : Option ℕ
  pub context_init : Bool
  pub session_init : Bool
  pub handshake : Option NodeId

-- `expected_peer_id.has_value() && id != *expected_peer_id`
unfoldable pub is_mismatch : Option NodeId → NodeId → Bool
unfolding bytes_eq
is_mismatch none id = false
is_mismatch (some expected) id = not (bytes_eq id expected)

unfoldable pub transport_connect_tls :
    TransportSessionState
    → (host : List ℕ) (port : ℕ) (expected_peer_id : Option NodeId) → Departure
    → TransportSessionState × Bool
transport_connect_tls session host port expected_peer_id departure =
    let closed = transport_close session in
    let dropped = record closed { tls = none; socket = none } in
    elim departure.sock [
      | none ↦ (closed, false)
      | some fd ↦
          if not departure.context_init
          then (closed, false)
          else if not departure.session_init
          then (record closed { tls = none }, false)
          else elim departure.handshake [
            | none ↦ (dropped, false)
            | some id ↦
                if is_mismatch expected_peer_id id
                then (record dropped { peer_node_id = some id }, false)
                else (
                  record closed {
                    socket = some fd;
                    tls = some id;
                    peer_node_id = some id;
                    is_tls = true;
                    remote_endpoint = format_endpoint host port;
                    is_open = true;
                  },
                  true,
                )
          ]
    ]

expected_peer :
    (expected : Option NodeId) (id : NodeId)
    → is_mismatch expected id ≡ false
    → (expected ≡ none) ⊎ (expected ≡ some id)
unfolding is_mismatch
expected_peer none id h = inl refl
expected_peer (some e) id h = ground (arith, bytes_eq_iff id e)

-- A TLS client has a session only with the peer that it expects: `transport_connect_tls` returns true
-- exactly when the session that it leaves is open, and then the peer has presented an id in the
-- handshake, which is the session's, and the expected one, if there is one.
pub connect_tls_lem :
    (s : TransportSessionState) (host : List ℕ) (port : ℕ) (expected : Option NodeId)
    (d : Departure)
    → let r = transport_connect_tls s host port expected d in
      (r.1 ≡ r.0.is_open)
      × ((r.1 ≡ false)
          ⊎ ((id : NodeId) × (d.handshake ≡ some id)
              × (r.0.peer_node_id ≡ some id)
              × ((expected ≡ none) ⊎ (expected ≡ some id))))
unfolding transport_connect_tls transport_close
connect_tls_lem s host port expected d = elim (Option-cases d.handshake) [
  | inl e ↦ ground (arith, e)
  | inr (id, e) ↦ ground (arith, e, expected_peer expected id)
]

-- A server has a session only with a peer that it lets in: `transport_accept` returns true exactly
-- when the server listens and the session that it leaves is open. Then a connection has come in, whose
-- socket and endpoint the session has, TLS is the server's, and on a TLS server the peer has presented an
-- id in the handshake, which is the session's, and which the validator has not rejected. A server that
-- does not listen leaves the session as it was; any other call that returns false leaves it closed.
pub accept_lem :
    (server : TransportServerState) (s : TransportSessionState) (a : Arrival)
    → let r = transport_accept server s a in
      (r.1 ≡ (server.is_listening && r.0.is_open))
      × ((r.0 ≡ s) ⊎ (server.is_listening ≡ true))
      × ((r.1 ≡ false)
          ⊎ ((fd : ℕ) × (endpoint : List ℕ) × (a.client ≡ some (fd, endpoint))
              × (r.0.socket ≡ some fd)
              × (r.0.remote_endpoint ≡ endpoint)
              × (r.0.is_tls ≡ server.is_tls)
              × ((server.is_tls ≡ false)
                  ⊎ ((id : NodeId) × (a.handshake ≡ some id)
                      × (r.0.peer_node_id ≡ some id)
                      × (is_rejected server.peer_validator id ≡ false)))))
unfolding transport_accept transport_close accept_tls
accept_lem server s a = elim (Option-cases a.client) [
  | inl e ↦ (ground (arith, e), ground (arith, e), inl (ground (arith, e)))
  | inr ((fd, endpoint), e) ↦ (
    ground (arith, e),
    ground (arith, e),
    elim (Bool-cases (transport_accept server s a).1) [
      | inl h ↦ inr (
        fd,
        endpoint,
        e,
        ground (arith, e, h),
        ground (arith, e, h),
        ground (arith, e, h),
        ground (arith, e, h),
      )
      | inr h ↦ inl h
    ],
  )
]
