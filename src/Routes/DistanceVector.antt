-- ===== src/Routes/DistanceVector.antt =====
-- src/network/distance_vector.cpp: a neighbour's advertisement is merged into the table.
use madoka.Common.{
  ℕ, ◌+◌, Bool, true, false, ◌&&◌, ◌||◌, List, [], ◌∷◌, ◌++◌, Option, none, some, length, min, ltb,
  leb, ◌==◌, if◌then◌else◌, not, find_if, update_first, erase_if, any_of,
}
use madoka.Bytes.{NodeId, bytes_eq, node_id_less}
use madoka.Routes.Route.{Route, route_metric_infinity, same_destination, route_create}
use madoka.Routes.Table.{RouteTable, max_route_table_entries}
use madoka.Routes.Advertisement.{RouteAdvertisement}

-- A route through the neighbour to a third node is withdrawn when it is no longer advertised.
unfoldable pub is_withdrawn : NodeId → List Route → Route → Bool
unfolding any_of same_destination
is_withdrawn neighbor advertised route =
    if not (bytes_eq route.next_hop neighbor) || bytes_eq route.destination_node neighbor
    then false
    else not (any_of (same_destination route) advertised)

-- `min(ROUTE_METRIC_INFINITY, link_cost + metric)`: the sum of two `uint32_t` in a `uint64_t`.
abbrev pub candidate_metric : ℕ → Route → ℕ
candidate_metric link_cost advertised = min route_metric_infinity (link_cost + advertised.metric)

-- The routes and the flag `changed`.
pub record Progress : Type 0 where
  pub routes : List Route
  pub changed : Bool

-- `route_changed`: the two routes differ in a field other than the time.
unfoldable pub route_changed : Route → Route → Bool
unfolding bytes_eq
route_changed existing candidate =
    not (bytes_eq existing.destination candidate.destination)
    || not (bytes_eq existing.destination_node candidate.destination_node)
    || not (bytes_eq existing.next_hop candidate.next_hop)
    || not (existing.metric == candidate.metric)

-- `better_metric || deterministic_tie || refresh_same_neighbor`
unfoldable pub accepts : NodeId → Route → Route → Bool
unfolding node_id_less
accepts neighbor existing candidate =
    ltb candidate.metric existing.metric
    || candidate.metric == existing.metric && node_id_less neighbor existing.next_hop
    || bytes_eq existing.next_hop neighbor

-- An advertised route at a finite metric meets the entry that `std::find_if` found.
unfoldable pub merge_candidate : NodeId → ℕ → Route → Route → Progress → Option Route → Progress
unfolding update_first same_destination route_changed accepts
merge_candidate neighbor current_time advertised candidate s none =
    if ltb (length s.routes) max_route_table_entries
    then record { routes = s.routes ++ candidate ∷ []; changed = true }
    else s
merge_candidate neighbor current_time advertised candidate s (some existing) =
    if accepts neighbor existing candidate
    then if route_changed existing candidate
      then record {
        routes = update_first (λ r. same_destination r advertised) (λ _. candidate) s.routes;
        changed = true;
      }
      else if bytes_eq existing.next_hop neighbor
      then record s {
        routes =
            update_first (λ r. same_destination r advertised)
              (λ r. record r { last_update = current_time }) s.routes;
      }
      else s
    else s

-- An advertised route at infinity poisons an entry that goes through the neighbour.
unfoldable pub poison : NodeId → ℕ → Route → Progress → Option Route → Progress
unfolding update_first same_destination
poison neighbor current_time advertised s none = s
poison neighbor current_time advertised s (some existing) =
    if bytes_eq existing.next_hop neighbor && not (existing.metric == route_metric_infinity)
    then record {
      routes =
          update_first (λ r. same_destination r advertised)
            (λ r. record r { metric = route_metric_infinity; last_update = current_time }) s.routes;
      changed = true;
    }
    else s

-- The body of the loop of `apply_routes`.
unfoldable pub apply_route : NodeId → ℕ → ℕ → Route → Progress → Progress
unfolding merge_candidate poison route_create find_if same_destination
apply_route neighbor current_time link_cost advertised s =
    let metric = candidate_metric link_cost advertised in
    let existing = find_if (λ r. same_destination r advertised) s.routes in
    if bytes_eq advertised.destination_node neighbor
    then s
    else if leb route_metric_infinity metric
    then poison neighbor current_time advertised s existing
    else merge_candidate neighbor current_time advertised
        (route_create advertised.destination neighbor metric current_time
          advertised.destination_node)
        s existing

unfoldable pub apply_loop : NodeId → ℕ → ℕ → List Route → Progress → Progress
unfolding apply_route
apply_loop neighbor current_time link_cost [] s = s
apply_loop neighbor current_time link_cost (r ∷ rest) s =
    apply_loop neighbor current_time link_cost rest
      (apply_route neighbor current_time link_cost r s)

unfoldable pub apply_routes : List Route → NodeId → List Route → ℕ → ℕ → Progress
unfolding erase_if is_withdrawn apply_loop
apply_routes routes neighbor advertised current_time link_cost =
    let kept = erase_if (is_withdrawn neighbor advertised) routes in
    apply_loop neighbor current_time link_cost advertised
      (record { routes = kept; changed = not (length kept == length routes) })

-- The table, `*last_known_seq` (`none` for a null pointer), the result and `*routes_changed`.
pub record Updated (S : Type 0) : Type 0 where
  pub table : RouteTable
  pub known : Option S
  pub accepted : Bool
  pub routes_changed : Bool

-- The end of both overloads.
unfoldable pub merged :
    {S : Type 0} → RouteTable → NodeId → RouteAdvertisement → ℕ → ℕ → Option S → Updated S
unfolding apply_routes
merged table neighbor advertisement current_time link_cost known =
    let s = apply_routes table.routes neighbor advertisement.routes current_time link_cost in
    record {
      table = record { routes = s.routes };
      known = known;
      accepted = true;
      routes_changed = s.changed;
    }

abbrev pub refused : {S : Type 0} → RouteTable → Option S → Updated S
refused table known = record {
  table = table;
  known = known;
  accepted = false;
  routes_changed = false;
}

-- The overload with a sequence number of one neighbour.
unfoldable pub distance_vector_update_seq :
    RouteTable → NodeId → RouteAdvertisement → ℕ → ℕ → Option ℕ → Updated ℕ
unfolding merged
distance_vector_update_seq table neighbor adv current_time link_cost none =
    if not (bytes_eq adv.sender neighbor)
    then refused table none
    else merged table neighbor adv current_time link_cost none
distance_vector_update_seq table neighbor adv current_time link_cost (some last) =
    if not (bytes_eq adv.sender neighbor)
    then refused table (some last)
    else if leb adv.sequence_number last
    then refused table (some last)
    else merged table neighbor adv current_time link_cost (some adv.sequence_number)

pub record RouteOriginState : Type 0 where
  pub generation : ℕ
  pub sequence : ℕ

-- `std::unordered_map<NodeId, RouteOriginState>`
abbrev pub RouteOriginStates : Type 0
RouteOriginStates = NodeId → Option RouteOriginState

unfoldable pub assign : RouteOriginStates → NodeId → RouteOriginState → RouteOriginStates
assign states id v k = if bytes_eq id k then some v else states k

-- The test on an origin that is known already.
unfoldable pub is_outdated : RouteAdvertisement → RouteOriginState → Bool
is_outdated adv last =
    ltb adv.generation last.generation
    || adv.generation == last.generation && leb adv.sequence_number last.sequence

-- The test on the entry of the origin, if there is one.
unfoldable pub is_blocked : RouteAdvertisement → Option RouteOriginState → Bool
unfolding is_outdated
is_blocked adv none = false
is_blocked adv (some last) = is_outdated adv last

-- `RouteOriginState{.generation = …, .sequence = …}`
abbrev pub stamp : RouteAdvertisement → RouteOriginState
stamp adv = record { generation = adv.generation; sequence = adv.sequence_number }

-- The overload with the states of all origins.
unfoldable pub distance_vector_update :
    RouteTable
    → NodeId
    → RouteAdvertisement
    → ℕ
    → ℕ
    → Option RouteOriginStates
    → Updated RouteOriginStates
unfolding merged is_blocked assign
distance_vector_update table neighbor adv current_time link_cost none =
    if not (bytes_eq adv.sender neighbor)
    then refused table none
    else merged table neighbor adv current_time link_cost none
distance_vector_update table neighbor adv current_time link_cost (some origins) =
    if not (bytes_eq adv.sender neighbor)
    then refused table (some origins)
    else if is_blocked adv (origins adv.sender)
    then refused table (some origins)
    else merged table neighbor adv current_time link_cost
        (some (assign origins adv.sender (stamp adv)))
