-- ===== src/Peers/Peer.antt =====
-- src/network/peer.cpp: a peer of the neighbour table and its liveness test.
use Prim.Native.String.{String}
use madoka.Common.{ℕ, ◌-◌, Bool, true, false, ◌||◌, List, ltb, leb, ◌==◌, if◌then◌else◌, not}
use madoka.Bytes.{NodeId, IPv6, bytes_eq}

pub data PeerState : Type 0 where
  unknown connecting connected disconnected : PeerState

-- `to_string(PeerState)`
unfoldable pub to_string : PeerState → String
to_string unknown = "Unknown"
to_string connecting = "Connecting"
to_string connected = "Connected"
to_string disconnected = "Disconnected"

-- `endpoint` is the bytes of a `std::string`; times are `uint64_t` milliseconds.
pub record Peer : Type 0 where
  pub id : NodeId
  pub virtual_address : IPv6
  pub endpoint : List ℕ
  pub state : PeerState
  pub last_seen : ℕ

-- `state == PeerState::Connected`
abbrev pub is_connected : PeerState → Bool
is_connected unknown = false
is_connected connecting = false
is_connected connected = true
is_connected disconnected = false

unfoldable pub peer_create : NodeId → IPv6 → List ℕ → PeerState → ℕ → Peer
peer_create id address endpoint state last_seen = record {
  id = id;
  virtual_address = address;
  endpoint = endpoint;
  state = state;
  last_seen = last_seen;
}

-- The caller's pointer is not null: its only caller in the sources has checked it.
unfoldable pub peer_update_state : PeerState → ℕ → Peer → Peer
peer_update_state new_state timestamp p =
    let q : Peer = record p { state = new_state } in
    if ltb 0 timestamp then record q { last_seen = timestamp } else q

unfoldable pub peer_is_alive : Peer → ℕ → ℕ → Bool
peer_is_alive p current_time timeout_ms =
    if not (is_connected p.state)
    then false
    else if p.last_seen == 0 || ltb current_time p.last_seen
    then false
    else leb (current_time - p.last_seen) timeout_ms

unfoldable pub peer_equal : Peer → Peer → Bool
peer_equal a b = bytes_eq a.id b.id
