-- ===== src/Peers/Tests.antt =====
-- Runs of the neighbour table on concrete peers, and the theorems on them.
use madoka.Common.{◌≡◌, refl, true, false, [], ◌∷◌, some, arith, replicate, find_if}
use madoka.Bytes.{NodeId, zero_address, bytes_eq}
use madoka.Keyed.{Unique, find_key}
use madoka.Peers.Peer.{Peer, connected, connecting, peer_is_alive, peer_equal, to_string}
use madoka.Peers.Topology.{
  Topology, peer_id, topology_find_peer, topology_find_by_address, topology_count,
}
use madoka.Peers.Heartbeat.{HelloMessage, heartbeat_process_hello, heartbeat_create_hello}
use madoka.Peers.Discovery.{
  NeighborAdvertisement, discovery_process_advertisement, discovery_create_advertisement,
  discovery_advertisement_equal,
}
use madoka.Peers.Liveness.{process_hello-IsAlive}
use madoka.Peers.Invariant.{
  add_peer, remove_peer, process_hello, prune_stale, run, IsValid, run-IsValid,
}

abbrev id_a : NodeId
id_a = 1 ∷ replicate 31 0

abbrev id_b : NodeId
id_b = 2 ∷ replicate 31 0

abbrev id_c : NodeId
id_c = 3 ∷ replicate 31 0

abbrev peer_a : Peer
peer_a = record {
  id = id_a;
  virtual_address = zero_address;
  endpoint = 97 ∷ [];
  state = connected;
  last_seen = 100;
}

abbrev peer_b : Peer
peer_b = record {
  id = id_b;
  virtual_address = zero_address;
  endpoint = [];
  state = connecting;
  last_seen = 0;
}

abbrev peer_c : Peer
peer_c = record {
  id = id_c;
  virtual_address = zero_address;
  endpoint = [];
  state = connecting;
  last_seen = 7;
}

abbrev two_peers : Topology
two_peers = record { peers = peer_a ∷ peer_b ∷ [] }

two_peers-Unique : Unique peer_id two_peers.peers
unfolding find_key find_if bytes_eq
two_peers-Unique = (refl, (refl, tt))

abbrev hello_b : HelloMessage
hello_b = record { sender = id_b; timestamp = 90 }

abbrev adv_c : NeighborAdvertisement
adv_c = record { node_id = id_c; address = zero_address; timestamp = 50; sequence_number = 8 }

abbrev adv_old : NeighborAdvertisement
adv_old = record { node_id = id_a; address = zero_address; timestamp = 40; sequence_number = 6 }

hello_b_accepted : (heartbeat_process_hello (some two_peers) hello_b 120).1 ≡ true
unfolding heartbeat_process_hello topology_find_peer find_key find_if bytes_eq
hello_b_accepted = refl

process_hello-IsAlive_example :
    (p : Peer) × (topology_find_peer (heartbeat_process_hello (some two_peers) hello_b 120).0 id_b
      ≡ some p)
    × (peer_is_alive p 140 30 ≡ true)
process_hello-IsAlive_example =
    process_hello-IsAlive two_peers hello_b 120 140 30 (omega arith) (omega arith) (omega arith)
      hello_b_accepted

run-IsValid_example : IsValid (
    run
      (some two_peers)
      (add_peer peer_c ∷ process_hello hello_b 120 ∷ prune_stale 200 30 ∷ remove_peer id_a ∷ []))
run-IsValid_example =
    run-IsValid (some two_peers)
      (add_peer peer_c ∷ process_hello hello_b 120 ∷ prune_stale 200 30 ∷ remove_peer id_a ∷ [])
      (omega arith, two_peers-Unique)

adv_c_accepted :
    (discovery_process_advertisement (some two_peers) adv_c (some 5) 60).accepted ≡ true
unfolding discovery_process_advertisement
adv_c_accepted = refl

-- Small runs.
find_by_address_example : topology_find_by_address (some two_peers) zero_address ≡ some peer_a
unfolding topology_find_by_address find_if bytes_eq
find_by_address_example = refl

count_example : topology_count two_peers ≡ 2
unfolding topology_count
count_example = refl

peer_equal_example : peer_equal peer_a peer_b ≡ false
unfolding peer_equal bytes_eq
peer_equal_example = refl

to_string_example : to_string connecting ≡ "Connecting"
unfolding to_string
to_string_example = refl

create_hello_example : (heartbeat_create_hello id_a 5).timestamp ≡ 5
unfolding heartbeat_create_hello
create_hello_example = refl

-- Without a timestamp the peer's own time is advertised.
create_advertisement_example : (discovery_create_advertisement peer_a 0 4).timestamp ≡ 100
unfolding discovery_create_advertisement
create_advertisement_example = refl

advertisement_equal_example : discovery_advertisement_equal adv_c adv_old ≡ false
unfolding discovery_advertisement_equal bytes_eq
advertisement_equal_example = refl
