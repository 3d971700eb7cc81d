-- ===== src/Peers/Invariant.antt =====
-- The table through any history of calls.
use madoka.Common.{
  ℕ, ◌≤◌, ◌≡◌, refl, List, [], ◌∷◌, Option, none, some, arith, length, length-append,
  length-erase_first, length-update_first, subst, sym,
}
use madoka.Bytes.{NodeId}
use madoka.Keyed.{Unique, has_key, find_key, Unique-append, Unique-erase_first, Unique-update_first}
use madoka.Peers.Peer.{Peer, PeerState, peer_update_state, peer_create, connected}
use madoka.Peers.Topology.{
  Topology, TopologyRef, peer_id, max_topology_peers, topology_init, topology_add_peer,
  topology_remove_peer, topology_update_state, topology_prune_stale, topology_clear, prune_peers,
  write_peer,
}
use madoka.Peers.Heartbeat.{HelloMessage, heartbeat_process_hello, refresh_sender}
use madoka.Peers.Discovery.{
  NeighborAdvertisement, discovery_process_advertisement, apply_advertisement, refresh_peer,
}
use madoka.Peers.Lookup.{update_state-id}

-- At most 16 peers, with distinct ids. A null table has nothing to keep.
abbrev pub IsValid : TopologyRef → Type 0
IsValid none = Unit
IsValid (some t) = (length t.peers ≤ max_topology_peers) × Unique peer_id t.peers

-- The calls that change the table.
pub data Call : Type 0 where
  init clear : Call
  add_peer : Peer → Call
  remove_peer : NodeId → Call
  update_state : NodeId → PeerState → ℕ → Call
  prune_stale : ℕ → ℕ → Call
  process_hello : HelloMessage → ℕ → Call
  process_advertisement : NeighborAdvertisement → Option ℕ → ℕ → Call

unfoldable pub step : TopologyRef → Call → TopologyRef
step topo init = topology_init topo
step topo clear = topology_clear topo
step topo (add_peer p) = (topology_add_peer topo p).0
step topo (remove_peer id) = (topology_remove_peer topo id).0
step topo (update_state id s time) = (topology_update_state topo id s time).0
step topo (prune_stale now timeout) = (topology_prune_stale topo now timeout).0
step topo (process_hello hello now) = (heartbeat_process_hello topo hello now).0
step topo (process_advertisement adv last now) =
    (discovery_process_advertisement topo adv last now).topology

unfoldable pub run : TopologyRef → List Call → TopologyRef
run topo [] = topo
run topo (c ∷ cs) = run (step topo c) cs

add_peer-IsValid :
    (topo : TopologyRef) (p : Peer) → IsValid topo → IsValid (topology_add_peer topo p).0
unfolding topology_add_peer
add_peer-IsValid none p v = tt
add_peer-IsValid (some t) p v =
    ground (arith, length-append t.peers (p ∷ []), Unique-append peer_id t.peers p v.1)

write_peer-IsValid :
    (topo : TopologyRef) (id : NodeId) (f : Peer → Peer)
    → ((p : Peer) → peer_id (f p) ≡ peer_id p)
    → IsValid topo
    → IsValid (write_peer topo id f)
write_peer-IsValid none id f same v = tt
write_peer-IsValid (some t) id f same v = (
  omega (arith, length-update_first (has_key peer_id id) f t.peers),
  Unique-update_first peer_id id f (λ p _. same p) t.peers v.1,
)

prune_peers-find :
    (now timeout : ℕ) (k : NodeId) (ps : List Peer)
    → find_key peer_id k ps ≡ none
    → find_key peer_id k (prune_peers now timeout ps).0 ≡ none
unfolding prune_peers find_key
prune_peers-find now timeout k [] h = refl
prune_peers-find now timeout k (p ∷ ps) h = ground (arith, prune_peers-find now timeout k ps)

prune_peers-IsValid :
    (now timeout : ℕ) (ps : List Peer)
    → Unique peer_id ps
    → (length (prune_peers now timeout ps).0 ≡ length ps)
      × Unique peer_id (prune_peers now timeout ps).0
unfolding prune_peers
prune_peers-IsValid now timeout [] u = (refl, tt)
prune_peers-IsValid now timeout (p ∷ ps) u =
    ground (arith, prune_peers-IsValid now timeout ps u.1, prune_peers-find now timeout p.id ps)

advertisement-IsValid :
    (t : Topology) (adv : NeighborAdvertisement) (time : ℕ)
    → IsValid (some t)
    → IsValid (apply_advertisement t adv time)
unfolding apply_advertisement
advertisement-IsValid t adv time v = ground (
  arith,
  write_peer-IsValid (some t) adv.node_id (refresh_peer adv time) (λ p. refl) v,
  add_peer-IsValid (some t) (peer_create adv.node_id adv.address [] connected time) v,
)

-- A null table stays null.
step-null : (c : Call) → step none c ≡ none
unfolding step topology_init topology_clear topology_add_peer topology_remove_peer
    topology_update_state topology_prune_stale heartbeat_process_hello
    discovery_process_advertisement
step-null init = refl
step-null _ = refl

step-IsValid : (topo : TopologyRef) (c : Call) → IsValid topo → IsValid (step topo c)
unfolding step topology_init topology_clear topology_remove_peer topology_prune_stale
step-IsValid none c v = subst IsValid (sym (step-null c)) tt
step-IsValid (some t) init v = omega arith
step-IsValid (some t) clear v = omega arith
step-IsValid (some t) (add_peer p) v = add_peer-IsValid (some t) p v
step-IsValid (some t) (remove_peer id) v = ground (
  arith,
  length-erase_first (has_key peer_id id) t.peers,
  Unique-erase_first peer_id id t.peers v.1,
)
step-IsValid (some t) (update_state id s time) v =
    unfold topology_update_state in
    ground
      (arith, write_peer-IsValid (some t) id (peer_update_state s time) (update_state-id s time) v)
step-IsValid (some t) (prune_stale now timeout) v =
    ground (arith, prune_peers-IsValid now timeout t.peers v.1)
step-IsValid (some t) (process_hello hello now) v =
    unfold heartbeat_process_hello in
    ground
      (arith, write_peer-IsValid (some t) hello.sender (refresh_sender hello now) (λ p. refl) v)
step-IsValid (some t) (process_advertisement adv last now) v =
    unfold discovery_process_advertisement in
    ground (arith, advertisement-IsValid t adv now v, advertisement-IsValid t adv adv.timestamp v)

-- From a null table, or one of at most 16 peers with distinct ids, no history of calls, in any
-- order and with any arguments, leads to more than 16 peers or to two peers of one id.
pub run-IsValid : (topo : TopologyRef) (cs : List Call) → IsValid topo → IsValid (run topo cs)
unfolding run
run-IsValid topo [] v = v
run-IsValid topo (c ∷ cs) v = run-IsValid (step topo c) cs (step-IsValid topo c v)
