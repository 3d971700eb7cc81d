-- ===== src/Peers/Replay.antt =====
-- Sequence numbers of neighbour advertisements.

use madoka.Common.{
  Option, ℕ, ◌<◌, ◌≤◌, ◌≡◌, true, false, [], none, some, arith, length, if◌then◌else◌, ◌↔◌, leb,
  ◌⊎◌,
}
use madoka.Peers.Peer.{Peer, peer_create, connected}
use madoka.Peers.Topology.{Topology, max_topology_peers, topology_find_peer}
use madoka.Peers.Discovery.{NeighborAdvertisement, discovery_process_advertisement, refresh_peer}

-- An advertisement is accepted exactly when its sequence number is above the last one known; then
-- that number becomes the last one, and otherwise table and number are as they were.
process_advertisement_seq :
    (t : Topology) (adv : NeighborAdvertisement) (last now : ℕ)
    → let r = discovery_process_advertisement (some t) adv (some last) now in
      ((r.accepted ≡ true) ↔ (last < adv.sequence_number))
      × (r.last_known_seq ≡ some (if r.accepted then adv.sequence_number else last))
      × ((r.accepted ≡ true) ⊎ (r.topology ≡ some t))
unfolding discovery_process_advertisement
process_advertisement_seq t adv last now =
    ((λ h. ground arith, λ h. ground arith), ground arith, ground arith)

-- An accepted advertisement cannot be replayed, however often: any later one with a number that is
-- not above it is refused, and changes nothing.
process_advertisement_replay :
    (t s : Topology) (adv old : NeighborAdvertisement) (last now later : ℕ)
    → (discovery_process_advertisement (some t) adv (some last) now).accepted ≡ true
    → old.sequence_number ≤ adv.sequence_number
    → discovery_process_advertisement
        (some s)
        old
        (discovery_process_advertisement (some t) adv (some last) now).last_known_seq
        later
      ≡ record { topology = some s; last_known_seq = some adv.sequence_number; accepted = false }
unfolding discovery_process_advertisement
process_advertisement_replay t s adv old last now later h k = ground arith

-- The node of an advertisement, as it is found behind one that was accepted.
abbrev pub advertised : Topology → NeighborAdvertisement → (time : ℕ) → Option Peer
advertised t adv time = elim (topology_find_peer (some t) adv.node_id) [
  | some p ↦ some (refresh_peer adv time p)
  | none ↦
      if leb max_topology_peers (length t.peers)
      then none
      else some (peer_create adv.node_id adv.address [] connected time)
]

-- Above the last number known, if one is kept.
abbrev pub IsNew : NeighborAdvertisement → Option ℕ → Type 0
IsNew adv none = Unit
IsNew adv (some last) = last < adv.sequence_number
