-- ===== src/Peers.antt =====
-- The neighbour table: include/network/{peer,topology,heartbeat,discovery}.hpp and their sources.
pub mod Peer
pub mod Topology
pub mod Heartbeat
pub mod Discovery
pub mod Lookup
pub mod Liveness
pub mod Invariant
pub mod Replay
mod Tests
