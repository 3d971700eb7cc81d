-- ===== src/Peers/Heartbeat.antt =====
-- src/network/heartbeat.cpp: a HELLO refreshes its sender.
use madoka.Common.{ℕ, Bool, true, false, none, some, ltb, if◌then◌else◌}
use madoka.Bytes.{NodeId}
use madoka.Peers.Peer.{Peer, connected}
use madoka.Peers.Topology.{TopologyRef, topology_find_peer, write_peer}

pub record HelloMessage : Type 0 where
  pub sender : NodeId
  pub timestamp : ℕ

unfoldable pub heartbeat_create_hello : NodeId → ℕ → HelloMessage
heartbeat_create_hello sender timestamp = record { sender = sender; timestamp = timestamp }

-- `(current_time > 0) ? current_time : timestamp`
abbrev pub effective_time : ℕ → ℕ → ℕ
effective_time current_time timestamp = if ltb 0 current_time then current_time else timestamp

-- The writes through the pointer to the sender.
abbrev pub refresh_sender : HelloMessage → ℕ → Peer → Peer
refresh_sender hello current_time p = record p {
  last_seen = effective_time current_time hello.timestamp;
  state = connected;
}

unfoldable pub heartbeat_process_hello : TopologyRef → HelloMessage → ℕ → TopologyRef × Bool
unfolding topology_find_peer
heartbeat_process_hello none hello current_time = (none, false)
heartbeat_process_hello (some t) hello current_time =
    elim (topology_find_peer (some t) hello.sender) [
      | none ↦ (some t, false)
      | some _ ↦ (write_peer (some t) hello.sender (refresh_sender hello current_time), true)
    ]
