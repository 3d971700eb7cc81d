-- ===== src/Routes/Route.antt =====
-- src/network/route.cpp: a route, and when two routes are for one destination.
use madoka.Common.{ℕ, Bool, ◌&&◌, ◌==◌, if◌then◌else◌, not}
use madoka.Bytes.{NodeId, IPv6, zero_id, zero_address, bytes_eq}

abbrev pub route_metric_infinity : ℕ
route_metric_infinity = 16

-- `metric` is a `uint32_t`, `last_update` a `uint64_t`.
pub record Route : Type 0 where
  pub destination : IPv6
  pub destination_node : NodeId
  pub next_hop : NodeId
  pub metric : ℕ
  pub last_update : ℕ

unfoldable pub route_create : IPv6 → NodeId → ℕ → ℕ → NodeId → Route
route_create destination next_hop metric last_update destination_node = record {
  destination = destination;
  destination_node = destination_node;
  next_hop = next_hop;
  metric = metric;
  last_update = last_update;
}

-- The overload for a destination that is known by its node id alone.
unfoldable pub route_create_to_node : NodeId → NodeId → ℕ → ℕ → Route
route_create_to_node destination_node next_hop metric last_update = record {
  destination = zero_address;
  destination_node = destination_node;
  next_hop = next_hop;
  metric = metric;
  last_update = last_update;
}

unfoldable pub route_equal : Route → Route → Bool
unfolding bytes_eq
route_equal a b =
    bytes_eq a.destination b.destination
    && bytes_eq a.destination_node b.destination_node
    && bytes_eq a.next_hop b.next_hop
    && a.metric == b.metric
    && a.last_update == b.last_update

-- `is_non_empty_node`
unfoldable pub is_non_empty_node : NodeId → Bool
unfolding bytes_eq
is_non_empty_node id = not (bytes_eq id zero_id)

-- `same_destination` of distance_vector.cpp, and the `match` of `routing_add_route`: by node id if
-- both have one, else by address.
unfoldable pub same_destination : Route → Route → Bool
unfolding is_non_empty_node
same_destination left right =
    if is_non_empty_node left.destination_node && is_non_empty_node right.destination_node
    then bytes_eq left.destination_node right.destination_node
    else bytes_eq left.destination right.destination
