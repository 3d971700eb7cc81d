-- ===== src/Peers/Liveness.antt =====
-- Liveness: what a HELLO buys, and what pruning leaves.
use madoka.Common.{
  ℕ, ◌+◌, ◌<◌, ◌≤◌, ◌≡◌, refl, Bool, true, false, ◌&&◌, List, [], ◌∷◌, some, arith, length, not,
  ◌↔◌, All, count_if,
}
use madoka.Bytes.{bytes_eq_refl}
use madoka.Peers.Peer.{Peer, is_connected, peer_is_alive, connected}
use madoka.Peers.Topology.{
  Topology, prune_peers, topology_prune_stale, topology_active_neighbors_count, topology_find_peer,
}
use madoka.Peers.Heartbeat.{HelloMessage, heartbeat_process_hello}
use madoka.Peers.Lookup.{find_peer-process_hello}

-- A peer is alive exactly when it is connected, has been seen, and the time since is within the
-- timeout, with no clock that runs backwards.
pub is_alive_iff :
    (p : Peer) (now timeout : ℕ)
    → (peer_is_alive p now timeout ≡ true) ↔ (
        (p.state ≡ connected)
        × (0 < p.last_seen)
        × (p.last_seen ≤ now)
        × (now ≤ p.last_seen + timeout))
unfolding peer_is_alive
is_alive_iff p now timeout = (λ h. ground arith, λ h. ground arith)

-- A HELLO from a known sender at a time above 0 keeps that sender alive until the timeout after
-- it has passed.
pub process_hello-IsAlive :
    (t : Topology) (hello : HelloMessage) (now later timeout : ℕ)
    → 0 < now
    → now ≤ later
    → later ≤ now + timeout
    → (heartbeat_process_hello (some t) hello now).1 ≡ true
    → (p : Peer) × (topology_find_peer (heartbeat_process_hello (some t) hello now).0 hello.sender
        ≡ some p)
      × (peer_is_alive p later timeout ≡ true)
unfolding peer_is_alive heartbeat_process_hello
process_hello-IsAlive t hello now later timeout h1 h2 h3 ok =
    ground (arith, find_peer-process_hello t hello now hello.sender, bytes_eq_refl hello.sender)

abbrev pub is_stale : ℕ → ℕ → Peer → Bool
is_stale now timeout p = is_connected p.state && not (peer_is_alive p now timeout)

-- After pruning a connected peer is an alive one; the alive peers are as many as before, the number
-- returned is that of the stale ones, and no peer is dropped.
prune_peers_lem :
    (now timeout : ℕ) (ps : List Peer)
    → let r = prune_peers now timeout ps in
      All (λ p. is_stale now timeout p ≡ false) r.0
      × (count_if (λ p. peer_is_alive p now timeout) r.0
          ≡ count_if (λ p. peer_is_alive p now timeout) ps)
      × (r.1 ≡ count_if (is_stale now timeout) ps)
      × (length r.0 ≡ length ps)
unfolding prune_peers count_if peer_is_alive
prune_peers_lem now timeout [] = (tt, refl, refl, refl)
prune_peers_lem now timeout (p ∷ ps) = ground (arith, prune_peers_lem now timeout ps)

prune_peers-fresh :
    (now timeout : ℕ) (ps : List Peer)
    → All (λ p. is_stale now timeout p ≡ false) ps
    → prune_peers now timeout ps ≡ (ps, 0)
unfolding prune_peers
prune_peers-fresh now timeout [] h = refl
prune_peers-fresh now timeout (p ∷ ps) h = ground (arith, prune_peers-fresh now timeout ps h.1)

-- `topology_prune_stale` keeps every peer and the number of active neighbours, returns the number
-- of connected peers that were not alive, and does nothing when it runs again at the same time.
prune_stale_lem :
    (t : Topology) (now timeout : ℕ)
    → let r = topology_prune_stale (some t) now timeout in
      (s : Topology) × (r ≡ (some s, count_if (is_stale now timeout) t.peers))
      × (length s.peers ≡ length t.peers)
      × (topology_active_neighbors_count s now timeout
          ≡ topology_active_neighbors_count t now timeout)
      × (topology_prune_stale (some s) now timeout ≡ (some s, 0))
unfolding topology_prune_stale topology_active_neighbors_count
prune_stale_lem t now timeout =
    let h = prune_peers_lem now timeout t.peers in
    (
      record { peers = (prune_peers now timeout t.peers).0 },
      ground (arith, h),
      h.3,
      h.1,
      ground (arith, prune_peers-fresh now timeout (prune_peers now timeout t.peers).0 h.0),
    )
