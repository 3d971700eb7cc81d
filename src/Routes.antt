-- ===== src/Routes.antt =====
-- Routing: include/network/{route,routing,route_advertisement,distance_vector}.hpp and their
-- sources.
pub mod Route
pub mod Table
pub mod Advertisement
pub mod DistanceVector
pub mod Lookup
pub mod Relax
pub mod Invariant
pub mod Loop
pub mod Merge
pub mod Horizon
pub mod Freshness
pub mod Expiry
mod Tests
