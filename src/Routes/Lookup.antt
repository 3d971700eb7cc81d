-- ===== src/Routes/Lookup.antt =====
-- `routing_add_route`, `routing_remove_route` and `routing_lookup` against one another, on tables
-- whose routes all name their node.
use mathlib.Core.Option
use madoka.Common.{
  ℕ, ◌≤◌, ◌≡◌, refl, sym, Bool, true, false, List, [], ◌∷◌, Option, none, some, arith, length,
  length-append, length-update_first, length-erase_first, All-erase_first, All-append,
  All-update_first, update_first, if◌then◌else◌, ◌↔◌, All, leb,
}
use madoka.Bytes.{NodeId, bytes_eq, bytes_eq_iff}
use madoka.Keyed.{
  has_key, find_key-update_first, Unique-update_first, Unique-erase_first, Unique, find_key,
  find_key-append, Unique-append, find_key-erase_first,
}
use madoka.Routes.Route.{Route, same_destination, is_non_empty_node}
use madoka.Routes.Table.{
  RouteTable, node_of, max_route_table_entries, improves, replace_match, routing_add_route,
  routing_find_route, routing_remove_route,
}

abbrev pub Named : Route → Type 0
Named r = is_non_empty_node r.destination_node ≡ true

-- A table as the daemon keeps it: at most 16 routes, each to a node of its own.
pub record IsTable (table : RouteTable) : Type 0 where
  pub fits : length table.routes ≤ max_route_table_entries
  pub named : All Named table.routes
  pub unique : Unique node_of table.routes

pub same_destination-Named :
    (a b : Route)
    → Named a
    → Named b
    → same_destination a b ≡ bytes_eq a.destination_node b.destination_node
unfolding same_destination
same_destination-Named a b ha hb = ground arith

abbrev pub improvement : Route → List Route → Option (List Route × Bool)
improvement route rs =
    Option.map
      (λ (old : Route). (
        if improves route old
            then update_first (has_key node_of route.destination_node) (λ _. route) rs
            else rs,
        improves route old,
      ))
      (find_key node_of route.destination_node rs)

-- The loop of `routing_add_route`, in terms of the first route to the same node.
replace_match_lem :
    (route : Route) (rs : List Route)
    → Named route
    → All Named rs
    → replace_match route rs ≡ improvement route rs
unfolding replace_match find_key update_first
replace_match_lem route [] h n = refl
replace_match_lem route (r ∷ rs) h n = ground (
  arith,
  same_destination-Named route r,
  bytes_eq_iff r.destination_node route.destination_node,
  bytes_eq_iff route.destination_node r.destination_node,
  replace_match_lem route rs h n.1,
)

-- The route that `routing_add_route` leaves for the node of the route it is given.
abbrev pub winner : Route → Option Route → ℕ → Option Route
winner route none n = if leb max_route_table_entries n then none else some route
winner route (some old) n = some (if improves route old then route else old)

-- On a well-formed table `routing_add_route`, given a route that names its node, leaves for that
-- node the better of the old route and the new, by metric and then by next hop; a node without a
-- route gets the new one while there are fewer than 16. Every other node is found as before.
find_route-add_route :
    (table : RouteTable) (route : Route) (k : NodeId)
    → IsTable table
    → Named route
    → routing_find_route (routing_add_route table route).0 k ≡ (
        if bytes_eq route.destination_node k
        then winner route (routing_find_route table k) (length table.routes)
        else routing_find_route table k)
unfolding routing_add_route routing_find_route
find_route-add_route table route k v h = ground (
  arith,
  replace_match_lem route table.routes h v.named,
  bytes_eq_iff route.destination_node k,
  find_key-append node_of k table.routes route,
  find_key-update_first node_of route.destination_node (λ _. route) (λ r e. sym e) k table.routes,
)

-- `routing_add_route` keeps the table within 16 routes and one route to a node.
pub add_route-IsTable :
    (table : RouteTable) (route : Route)
    → IsTable table
    → Named route
    → IsTable (routing_add_route table route).0
unfolding routing_add_route
add_route-IsTable table route v h = ground (
  arith,
  replace_match_lem route table.routes h v.named,
  length-append table.routes (route ∷ []),
  length-update_first (has_key node_of route.destination_node) (λ _. route) table.routes,
  All-append Named table.routes (route ∷ []) v.named (h, tt),
  All-update_first (has_key node_of route.destination_node) Named (λ _. route) table.routes
      (λ r e n. h) v.named,
  Unique-append node_of table.routes route v.unique,
  Unique-update_first node_of route.destination_node (λ _. route) (λ r e. sym e) table.routes
      v.unique,
)

-- On a well-formed table `routing_remove_route` returns whether the node had a route; afterwards
-- it has none, every other node is found as before, and the table is still well-formed.
pub find_route-remove_route :
    (table : RouteTable) (id k : NodeId)
    → IsTable table
    → let r = routing_remove_route table id in
      ((r.1 ≡ false) ↔ (routing_find_route table id ≡ none))
      × (routing_find_route r.0 k ≡ (if bytes_eq id k then none else routing_find_route table k))
      × IsTable r.0
unfolding routing_remove_route routing_find_route
find_route-remove_route table id k v = (
  (ground arith, ground arith),
  ground (arith, find_key-erase_first node_of k id table.routes v.unique, bytes_eq_iff id k),
  ground (
    arith,
    length-erase_first (has_key node_of id) table.routes,
    All-erase_first (has_key node_of id) Named table.routes v.named,
    Unique-erase_first node_of id table.routes v.unique,
  ),
)
