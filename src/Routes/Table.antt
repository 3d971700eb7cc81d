-- ===== src/Routes/Table.antt =====
-- src/network/routing.cpp: the routing table, a vector of at most 16 routes that is searched from
-- the front.
use madoka.Common.{
  ℕ, ◌-◌, Bool, true, false, ◌&&◌, ◌||◌, List, [], ◌∷◌, ◌++◌, Option, none, some, length, ltb, leb,
  ◌==◌, if◌then◌else◌, erase_first, erase_if,
}
use mathlib.Core.Option
use madoka.Bytes.{NodeId, IPv6, node_id_less}
use madoka.Keyed.{has_key, find_key}
use madoka.Routes.Route.{Route, route_metric_infinity, same_destination}

abbrev pub max_route_table_entries : ℕ
max_route_table_entries = 16

pub record RouteTable : Type 0 where
  pub routes : List Route

pub record RouteEntry : Type 0 where
  pub destination : NodeId
  pub next_hop : NodeId
  pub metric : ℕ
  pub valid : Bool

abbrev pub node_of : Route → NodeId
node_of r = r.destination_node

abbrev pub address_of : Route → IPv6
address_of r = r.destination

unfoldable pub routing_init : RouteTable
routing_init = record { routes = [] }

unfoldable pub routing_lookup : RouteTable → NodeId → Option RouteEntry
unfolding find_key
routing_lookup table destination =
    Option.map
      (λ (r : Route).
        let e : RouteEntry = record {
          destination = destination;
          next_hop = r.next_hop;
          metric = r.metric;
          valid = ltb r.metric route_metric_infinity;
        } in
        e)
      (find_key node_of destination table.routes)

-- `better || equal_but_deterministic`
unfoldable pub improves : Route → Route → Bool
unfolding node_id_less
improves route existing =
    ltb route.metric existing.metric
    || route.metric == existing.metric && node_id_less route.next_hop existing.next_hop

-- The loop of `routing_add_route`; `none` when it ends without a match. All five fields of the
-- existing entry are assigned, so the entry becomes the route.
unfoldable pub replace_match : Route → List Route → Option (List Route × Bool)
unfolding same_destination improves
replace_match route [] = none
replace_match route (existing ∷ rest) =
    let more = Option.map (λ r. (existing ∷ r.0, r.1)) (replace_match route rest) in
    if same_destination route existing
    then if improves route existing
      then some (route ∷ rest, true)
      else some (existing ∷ rest, false)
    else more

unfoldable pub routing_add_route : RouteTable → Route → RouteTable × Bool
unfolding replace_match
routing_add_route table route = elim (replace_match route table.routes) [
  | some r ↦ (record table { routes = r.0 }, r.1)
  | none ↦
      if leb max_route_table_entries (length table.routes)
      then (table, false)
      else (record table { routes = table.routes ++ route ∷ [] }, true)
]

-- The four overloads of `routing_find_route`: by address and by node id.
unfoldable pub routing_find_route_address : RouteTable → IPv6 → Option Route
unfolding find_key
routing_find_route_address table destination = find_key address_of destination table.routes

unfoldable pub routing_find_route : RouteTable → NodeId → Option Route
unfolding find_key
routing_find_route table destination = find_key node_of destination table.routes

-- The two overloads of `routing_remove_route`.
unfoldable pub routing_remove_route_address : RouteTable → IPv6 → RouteTable × Bool
unfolding find_key erase_first
routing_remove_route_address table destination =
    elim (find_key address_of destination table.routes) [
      | some _ ↦ (
        record table { routes = erase_first (has_key address_of destination) table.routes },
        true,
      )
      | none ↦ (table, false)
    ]

unfoldable pub routing_remove_route : RouteTable → NodeId → RouteTable × Bool
unfolding find_key erase_first
routing_remove_route table destination = elim (find_key node_of destination table.routes) [
  | some _ ↦
      (record table { routes = erase_first (has_key node_of destination) table.routes }, true)
  | none ↦ (table, false)
]

unfoldable pub routing_clear : RouteTable → RouteTable
routing_clear table = record table { routes = [] }

unfoldable pub routing_count : RouteTable → ℕ
routing_count table = length table.routes

-- `current_time > last_update && current_time - last_update > timeout`
unfoldable pub is_expired : ℕ → ℕ → Route → Bool
is_expired current_time timeout r =
    ltb r.last_update current_time && ltb timeout (current_time - r.last_update)

unfoldable pub routing_expire_routes : RouteTable → ℕ → ℕ → RouteTable
unfolding is_expired erase_if
routing_expire_routes table current_time timeout = record table {
  routes = erase_if (is_expired current_time timeout) table.routes;
}
