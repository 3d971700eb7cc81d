-- ===== src/Peers/Topology.antt =====
-- src/network/topology.cpp: the table of at most 16 peers. A `Topology*` is a `TopologyRef`, whose
-- `none` is the null pointer; a `const Topology&` is a `Topology`. A returned `Peer*` is the entry
-- found, and a write through it is `update_first` at the same predicate.
use madoka.Common.{
  ℕ, ◌+◌, Bool, true, false, ◌&&◌, List, [], ◌∷◌, ◌++◌, Option, none, some, length, leb,
  if◌then◌else◌, not, find_if, update_first, erase_first, count_if,
}
use madoka.Bytes.{NodeId, IPv6, bytes_eq}
use madoka.Keyed.{has_key, find_key}
use madoka.Peers.Peer.{
  Peer, PeerState, disconnected, is_connected, peer_update_state, peer_is_alive,
}

abbrev pub max_topology_peers : ℕ
max_topology_peers = 16

pub record Topology : Type 0 where
  pub peers : List Peer

abbrev pub TopologyRef : Type 0
TopologyRef = Option Topology

abbrev pub peer_id : Peer → NodeId
peer_id p = p.id

-- What `topology_add_peer` returns, with the message that it writes.
pub data AddResult : Type 0 where
  added null_topology duplicate_id capacity_reached : AddResult

unfoldable pub topology_init : TopologyRef → TopologyRef
topology_init none = none
topology_init (some t) = some (record t { peers = [] })

unfoldable pub topology_find_peer : TopologyRef → NodeId → Option Peer
unfolding find_key
topology_find_peer none id = none
topology_find_peer (some t) id = find_key peer_id id t.peers

unfoldable pub topology_find_by_address : TopologyRef → IPv6 → Option Peer
unfolding find_if
topology_find_by_address none address = none
topology_find_by_address (some t) address =
    find_if (λ p. bytes_eq p.virtual_address address) t.peers

unfoldable pub topology_add_peer : TopologyRef → Peer → TopologyRef × AddResult
unfolding topology_find_peer
topology_add_peer none peer = (none, null_topology)
topology_add_peer (some t) peer = elim (topology_find_peer (some t) peer.id) [
  | some _ ↦ (some t, duplicate_id)
  | none ↦
      if leb max_topology_peers (length t.peers)
      then (some t, capacity_reached)
      else (some (record t { peers = t.peers ++ peer ∷ [] }), added)
]

unfoldable pub topology_remove_peer : TopologyRef → NodeId → TopologyRef × Bool
unfolding find_key erase_first
topology_remove_peer none id = (none, false)
topology_remove_peer (some t) id = elim (find_key peer_id id t.peers) [
  | some _ ↦ (some (record t { peers = erase_first (has_key peer_id id) t.peers }), true)
  | none ↦ (some t, false)
]

-- A write through the pointer that `topology_find_peer` returned for `id`.
abbrev pub write_peer : TopologyRef → NodeId → (Peer → Peer) → TopologyRef
write_peer none id f = none
write_peer (some t) id f = some (record t { peers = update_first (has_key peer_id id) f t.peers })

unfoldable pub topology_update_state : TopologyRef → NodeId → PeerState → ℕ → TopologyRef × Bool
unfolding topology_find_peer peer_update_state
topology_update_state topo id new_state timestamp = elim (topology_find_peer topo id) [
  | none ↦ (topo, false)
  | some _ ↦ (write_peer topo id (peer_update_state new_state timestamp), true)
]

unfoldable pub topology_count : Topology → ℕ
topology_count t = length t.peers

unfoldable pub topology_active_neighbors_count : Topology → ℕ → ℕ → ℕ
unfolding count_if peer_is_alive
topology_active_neighbors_count t current_time timeout_ms =
    count_if (λ p. peer_is_alive p current_time timeout_ms) t.peers

-- The loop of `topology_prune_stale`: the peers it leaves, and the number it marks.
unfoldable pub prune_peers : ℕ → ℕ → List Peer → List Peer × ℕ
unfolding peer_is_alive
prune_peers current_time timeout_ms [] = ([], 0)
prune_peers current_time timeout_ms (p ∷ ps) =
    let (qs, n) = prune_peers current_time timeout_ms ps in
    if is_connected p.state && not (peer_is_alive p current_time timeout_ms)
    then (record p { state = disconnected } ∷ qs, n + 1)
    else (p ∷ qs, n)

unfoldable pub topology_prune_stale : TopologyRef → ℕ → ℕ → TopologyRef × ℕ
unfolding prune_peers
topology_prune_stale none current_time timeout_ms = (none, 0)
topology_prune_stale (some t) current_time timeout_ms =
    let (qs, n) = prune_peers current_time timeout_ms t.peers in (some (record t { peers = qs }), n)

unfoldable pub topology_clear : TopologyRef → TopologyRef
topology_clear none = none
topology_clear (some t) = some (record t { peers = [] })
