-- ===== src/Peers/Discovery.antt =====
-- src/network/discovery.cpp: neighbour advertisements, with a sequence number against replays.
use madoka.Common.{
  ℕ, Bool, true, false, ◌&&◌, [], Option, none, some, leb, ◌==◌, if◌then◌else◌, not,
}
use madoka.Bytes.{NodeId, IPv6, bytes_eq}
use madoka.Peers.Peer.{Peer, connected, peer_create}
use madoka.Peers.Topology.{Topology, TopologyRef, topology_find_peer, topology_add_peer, write_peer}
use madoka.Peers.Heartbeat.{effective_time}

pub record NeighborAdvertisement : Type 0 where
  pub node_id : NodeId
  pub address : IPv6
  pub timestamp : ℕ
  pub sequence_number : ℕ

unfoldable pub discovery_create_advertisement : Peer → ℕ → ℕ → NeighborAdvertisement
discovery_create_advertisement peer timestamp sequence_number = record {
  node_id = peer.id;
  address = peer.virtual_address;
  timestamp = if not (timestamp == 0) then timestamp else peer.last_seen;
  sequence_number = sequence_number;
}

unfoldable pub discovery_advertisement_equal : NeighborAdvertisement → NeighborAdvertisement → Bool
unfolding bytes_eq
discovery_advertisement_equal a b =
    bytes_eq a.node_id b.node_id
    && bytes_eq a.address b.address
    && a.timestamp == b.timestamp
    && a.sequence_number == b.sequence_number

-- The writes through the pointer to a known peer.
abbrev pub refresh_peer : NeighborAdvertisement → ℕ → Peer → Peer
refresh_peer adv time p = record p {
  virtual_address = adv.address;
  last_seen = time;
  state = connected;
}

-- The part behind the sequence check.
unfoldable pub apply_advertisement : Topology → NeighborAdvertisement → ℕ → TopologyRef
unfolding topology_find_peer topology_add_peer peer_create
apply_advertisement t adv time = elim (topology_find_peer (some t) adv.node_id) [
  | some _ ↦ write_peer (some t) adv.node_id (refresh_peer adv time)
  | none ↦ (topology_add_peer (some t) (peer_create adv.node_id adv.address [] connected time)).0
]

-- The table, `*last_known_seq` and the result. A null `last_known_seq` is `none`.
pub record Processed : Type 0 where
  pub topology : TopologyRef
  pub last_known_seq : Option ℕ
  pub accepted : Bool

unfoldable pub discovery_process_advertisement :
    TopologyRef → NeighborAdvertisement → Option ℕ → ℕ → Processed
unfolding apply_advertisement
discovery_process_advertisement none adv last current_time = record {
  topology = none;
  last_known_seq = last;
  accepted = false;
}
discovery_process_advertisement (some t) adv none current_time = record {
  topology = apply_advertisement t adv (effective_time current_time adv.timestamp);
  last_known_seq = none;
  accepted = true;
}
discovery_process_advertisement (some t) adv (some last) current_time =
    if leb adv.sequence_number last
    then record { topology = some t; last_known_seq = some last; accepted = false }
    else record {
      topology = apply_advertisement t adv (effective_time current_time adv.timestamp);
      last_known_seq = some adv.sequence_number;
      accepted = true;
    }
