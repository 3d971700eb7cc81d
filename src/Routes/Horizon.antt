-- ===== src/Routes/Horizon.antt =====
-- Split horizon and poison reverse: what a node tells the neighbour that it routes through, and
-- what that neighbour makes of it.

use madoka.Common.{
  ℕ, ◌<◌, ◌≤◌, ◌+◌, ◌≡◌, refl, sym, ◌∙◌, true, false, List, [], ◌∷◌, Option, none, some, arith,
  length, if◌then◌else◌, All, ◌≢◌, ◌↔◌,
}
use madoka.Bytes.{NodeId, IPv6, bytes_eq, bytes_eq_iff, virtual_address}
use madoka.Keyed.{Unique, find_key}
use madoka.Routes.Route.{Route, route_metric_infinity, is_non_empty_node}
use madoka.Routes.Table.{RouteTable, routing_find_route, node_of, max_route_table_entries}
use madoka.Routes.Advertisement.{
  RouteAdvertisement, SplitHorizonMode, disabled, split_horizon, poison_reverse, filter_routes,
  route_create_advertisement, check_routes, validate_route_advertisement,
}
use madoka.Routes.DistanceVector.{candidate_metric, RouteOriginStates, distance_vector_update}
use madoka.Routes.Lookup.{Named}
use madoka.Routes.Relax.{Hop, hop, relax}
use madoka.Routes.Invariant.{IsGood}
use madoka.Routes.Loop.{forget}
use madoka.Routes.Merge.{distance_vector_update-find}

-- What the target hears of one route.
abbrev pub shown : NodeId → SplitHorizonMode → Option Route → Option Route
shown target mode none = none
shown target mode (some r) =
    if bytes_eq r.next_hop target
    then elim mode [
      | disabled ↦ some r
      | split_horizon ↦ none
      | poison_reverse ↦ some (record r { metric = route_metric_infinity })
    ]
    else some r

filter_routes-find :
    (target : NodeId) (mode : SplitHorizonMode) (rs : List Route) (k : NodeId)
    → Unique node_of rs
    → find_key node_of k (filter_routes (some target) mode rs)
      ≡ shown target mode (find_key node_of k rs)
unfolding filter_routes find_key
filter_routes-find target mode [] k u = refl
filter_routes-find target mode (r ∷ rs) k u =
    ground (arith, bytes_eq_iff r.destination_node k, filter_routes-find target mode rs k u.1)

-- The advertisement to a target is lawful input for the receiver.
filter_routes-lawful :
    (target : NodeId) (mode : SplitHorizonMode) (rs : List Route)
    → Unique node_of rs
    → All Named rs
    → Unique node_of (filter_routes (some target) mode rs)
      × All Named (filter_routes (some target) mode rs)
      × (length (filter_routes (some target) mode rs) ≤ length rs)
unfolding filter_routes
filter_routes-lawful target mode [] u n = (tt, tt, omega arith)
filter_routes-lawful target mode (r ∷ rs) u n = ground (
  arith,
  filter_routes-lawful target mode rs u.1 n.1,
  filter_routes-find target mode rs r.destination_node u.1,
)

-- On a table with one route to a node, an advertisement to a neighbour shows every node as the
-- table has it, but for the routes through that neighbour: these are left out under split
-- horizon, shown at infinity under poison reverse, and shown as they are when both are disabled.
create_advertisement-find :
    (sender target : NodeId) (table : RouteTable) (seq gen : ℕ) (mode : SplitHorizonMode)
    (k : NodeId)
    → Unique node_of table.routes
    → find_key node_of k (route_create_advertisement sender table seq (some target) mode gen).routes
      ≡ shown target mode (routing_find_route table k)
unfolding route_create_advertisement routing_find_route
create_advertisement-find sender target table seq gen mode k u =
    filter_routes-find target mode table.routes k u

-- What the update makes of a route that is shown like this is no finite route back.
not_back :
    (a b : NodeId) (cost : ℕ) (mode : SplitHorizonMode) (r : Route) (old : Option Hop) (m : ℕ)
    → mode ≢ disabled
    → r.next_hop ≡ b
    → m < route_metric_infinity
    → (elim (shown b mode (some r)) [
      | none ↦ forget a old
      | some s ↦ relax a (candidate_metric cost s) old
    ])
      ≢ some (a, m)
not_back a b cost disabled r old m active through lt eq = absurd (active refl)
not_back a b cost split_horizon r none m active through lt eq =
    ground (arith, bytes_eq_iff r.next_hop b)
not_back a b cost split_horizon r (some (next, metric)) m active through lt eq =
    ground (arith, bytes_eq_iff r.next_hop b, bytes_eq_iff next a)
not_back a b cost poison_reverse r none m active through lt eq =
    ground (arith, bytes_eq_iff r.next_hop b)
not_back a b cost poison_reverse r (some (next, metric)) m active through lt eq =
    ground (arith, bytes_eq_iff r.next_hop b, bytes_eq_iff next a)

-- No two-node loop. Let a node route to some other node through a neighbour, and advertise to
-- that neighbour with split horizon or poison reverse. If both tables are well-formed, the
-- neighbour has room for the advertised routes, and it accepts the advertisement, then it has no
-- finite route to that node back through the sender, whatever it had before.
pub no_route_back :
    (a b : NodeId) (ta tb : RouteTable) (seq gen now cost : ℕ) (mode : SplitHorizonMode)
    (origins : Option RouteOriginStates) (k : NodeId) (r : Route)
    → mode ≢ disabled
    → IsGood ta.routes
    → IsGood tb.routes
    → length tb.routes + length ta.routes ≤ max_route_table_entries
    → k ≢ a
    → routing_find_route ta k ≡ some r
    → r.next_hop ≡ b
    → let adv = route_create_advertisement a ta seq (some b) mode gen in
      (distance_vector_update tb a adv now cost origins).accepted ≡ true
      → (m : ℕ) → m < route_metric_infinity
      → hop (routing_find_route (distance_vector_update tb a adv now cost origins).table k)
        ≢ some (a, m)
no_route_back a b ta tb seq gen now cost mode origins k r active va vb room other found through ok m
      lt eq =
    let adv = route_create_advertisement a ta seq (some b) mode gen in
    let lawful = filter_routes-lawful b mode ta.routes va.0.unique va.0.named in
    let seen = create_advertisement-find a b ta seq gen mode k va.0.unique in
    let step =
      distance_vector_update-find tb a adv now cost origins k
        (unfold route_create_advertisement in lawful.1)
        (unfold route_create_advertisement in lawful.0) vb
        (unfold route_create_advertisement in omega (arith, lawful, room)) ok in
    let apart : bytes_eq k a ≡ false = ground (arith, other, bytes_eq_iff k a) in
    not_back a b cost mode r (hop (routing_find_route tb k)) m active through lt
      (rw (apart, seen, found) at (sym step ∙ eq))

-- The checks of one route.
abbrev pub IsLawful : IPv6 → Route → Type 0
IsLawful network r =
    Named r
    × (r.destination ≡ virtual_address network r.destination_node)
    × (r.metric ≤ route_metric_infinity)

check_routes_iff :
    (network : IPv6) (rs : List Route)
    → (check_routes network rs ≡ none) ↔ All (IsLawful network) rs
unfolding check_routes is_non_empty_node
check_routes_iff network [] = (λ _. tt, λ _. refl)
check_routes_iff network (r ∷ rs) =
    let same = bytes_eq_iff r.destination (virtual_address network r.destination_node) in
    (
      λ h. ground (arith, same, check_routes_iff network rs),
      λ h. ground (arith, same, check_routes_iff network rs),
    )

-- `validate_route_advertisement` accepts exactly a named sender with at most 16 routes, each of which
-- names its node, has the address that the node's id gives in the network, and a metric up to
-- infinity.
validate_iff :
    (adv : RouteAdvertisement) (network : IPv6)
    → (validate_route_advertisement adv network ≡ none) ↔ (
        (is_non_empty_node adv.sender ≡ true)
        × (length adv.routes ≤ max_route_table_entries)
        × All (IsLawful network) adv.routes)
unfolding validate_route_advertisement is_non_empty_node
validate_iff adv network = (
  λ h. ground (arith, check_routes_iff network adv.routes),
  λ h. ground (arith, check_routes_iff network adv.routes),
)
