-- ===== src/Peers/Lookup.antt =====
-- What a lookup by id sees after each operation on the neighbour table.
use mathlib.Core.Option
use madoka.Common.{ℕ, ◌<◌, ◌≡◌, refl, false, none, some, arith, length, if◌then◌else◌, ◌↔◌}
use madoka.Bytes.{NodeId, bytes_eq, bytes_eq_iff}
use madoka.Keyed.{Unique, find_key-append, find_key-erase_first, find_key-update_first}
use madoka.Peers.Peer.{Peer, PeerState, peer_update_state}
use madoka.Peers.Topology.{
  Topology, peer_id, max_topology_peers, added, topology_find_peer, topology_add_peer,
  topology_remove_peer, topology_update_state, write_peer,
}
use madoka.Peers.Heartbeat.{HelloMessage, heartbeat_process_hello, refresh_sender}

-- `topology_add_peer` appends the peer exactly when its id is new and there is room. After an added
-- peer every id is found as before, and the peer's id is found at the new entry; after any other
-- result the table is as it was.
pub find_peer-add_peer :
    (t : Topology) (p : Peer)
    → let r = topology_add_peer (some t) p in
      ((r.1 ≡ added)
        ↔ ((topology_find_peer (some t) p.id ≡ none) × (length t.peers < max_topology_peers)))
      × ((k : NodeId)
          → topology_find_peer r.0 k ≡ (elim r.1 [
            | added ↦ if bytes_eq p.id k then some p else topology_find_peer (some t) k
            | _ ↦ topology_find_peer (some t) k
          ]))
unfolding topology_add_peer
find_peer-add_peer t p = (
  (ground arith, ground arith),
  λ k. ground (arith, find_key-append peer_id k t.peers p, bytes_eq_iff p.id k),
)

-- On a table with distinct ids `topology_remove_peer` returns whether the id was there; afterwards
-- that id is not found, and every other is found as before.
pub find_peer-remove_peer :
    (t : Topology) (id : NodeId)
    → Unique peer_id t.peers
    → let r = topology_remove_peer (some t) id in
      ((r.1 ≡ false) ↔ (topology_find_peer (some t) id ≡ none))
      × ((k : NodeId)
          → topology_find_peer r.0 k
            ≡ (if bytes_eq id k then none else topology_find_peer (some t) k))
unfolding topology_remove_peer topology_find_peer
find_peer-remove_peer t id u = (
  (ground arith, ground arith),
  λ k. ground (arith, find_key-erase_first peer_id k id t.peers u, bytes_eq_iff id k),
)

-- Writing through the pointer to `id` changes what is found under `id`, and nothing else.
pub find_peer-write_peer :
    (t : Topology) (id : NodeId) (f : Peer → Peer)
    → ((p : Peer) → peer_id (f p) ≡ peer_id p)
    → (k : NodeId)
    → topology_find_peer (write_peer (some t) id f) k ≡ (
        if bytes_eq id k
        then Option.map f (topology_find_peer (some t) k)
        else topology_find_peer (some t) k)
unfolding topology_find_peer
find_peer-write_peer t id f same k = find_key-update_first peer_id id f (λ p _. same p) k t.peers

pub update_state-id : (s : PeerState) (time : ℕ) (p : Peer) → (peer_update_state s time p).id ≡ p.id
unfolding peer_update_state
update_state-id s time p = ground arith

-- `topology_update_state` returns whether the id is known, and changes state and time of that peer
-- only: the time stays where the timestamp is 0.
pub find_peer-update_state :
    (t : Topology) (id : NodeId) (s : PeerState) (time : ℕ) (k : NodeId)
    → let r = topology_update_state (some t) id s time in
      ((r.1 ≡ false) ↔ (topology_find_peer (some t) id ≡ none))
      × (topology_find_peer r.0 k ≡ (
          if bytes_eq id k
          then Option.map (peer_update_state s time) (topology_find_peer (some t) k)
          else topology_find_peer (some t) k))
unfolding topology_update_state
find_peer-update_state t id s time k = (
  (ground arith, ground arith),
  ground (
    arith,
    bytes_eq_iff id k,
    find_peer-write_peer t id (peer_update_state s time) (update_state-id s time) k,
  ),
)

-- A HELLO is accepted exactly from a known sender. Then the sender is found as connected and seen at
-- the current time, or at the message's own where the current time is 0; every other peer is found
-- as before, and an unknown sender is not added.
pub find_peer-process_hello :
    (t : Topology) (hello : HelloMessage) (now : ℕ) (k : NodeId)
    → let r = heartbeat_process_hello (some t) hello now in
      ((r.1 ≡ false) ↔ (topology_find_peer (some t) hello.sender ≡ none))
      × (topology_find_peer r.0 k ≡ (
          if bytes_eq hello.sender k
          then Option.map (refresh_sender hello now) (topology_find_peer (some t) k)
          else topology_find_peer (some t) k))
unfolding heartbeat_process_hello
find_peer-process_hello t hello now k = (
  (ground arith, ground arith),
  ground (
    arith,
    bytes_eq_iff hello.sender k,
    find_peer-write_peer t hello.sender (refresh_sender hello now) (λ p. refl) k,
  ),
)
