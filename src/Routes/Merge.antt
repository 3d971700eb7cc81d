-- ===== src/Routes/Merge.antt =====
-- A whole update, node by node, against the distance-vector algorithm.

use madoka.Common.{
  ℕ, ◌≤◌, ◌+◌, ◌≡◌, true, false, ◌&&◌, List, Option, none, some, arith, length, ◌==◌,
  length-erase_if, if◌then◌else◌, All, not, inl, inr, Option-cases, erase_if,
}
use madoka.Bytes.{NodeId, bytes_eq}
use madoka.Keyed.{Unique, find_key, find_key-erase_if, find_key-key, All-find_key}
use madoka.Routes.Route.{Route}
use madoka.Routes.Table.{RouteTable, routing_find_route, node_of, max_route_table_entries}
use madoka.Routes.Advertisement.{RouteAdvertisement}
use madoka.Routes.DistanceVector.{
  RouteOriginStates, candidate_metric, apply_routes, is_withdrawn, merged, distance_vector_update,
}
use madoka.Routes.Lookup.{Named}
use madoka.Routes.Relax.{IsRoutes, Hop, hop, relax}
use madoka.Routes.Invariant.{IsGood, erase_if-IsGood}
use madoka.Routes.Loop.{forget, any_of-same, any_of-same_found, apply_loop-find}

-- What an update leaves for a node: the neighbour itself keeps its entry, a node that the neighbour
-- advertises is relaxed, and one that it does not advertise is forgotten if it went through it.
abbrev pub updated : NodeId → ℕ → List Route → NodeId → Option Hop → Option Hop
updated neighbor cost advertised k old =
    if bytes_eq k neighbor then old else elim (find_key node_of k advertised) [
      | none ↦ forget neighbor old
      | some r ↦ relax neighbor (candidate_metric cost r) old
    ]

is_withdrawn_lem :
    (neighbor : NodeId) (advertised : List Route) (r : Route)
    → Named r
    → All Named advertised
    → is_withdrawn neighbor advertised r ≡ (elim (find_key node_of r.destination_node advertised) [
      | none ↦ bytes_eq r.next_hop neighbor && not (bytes_eq r.destination_node neighbor)
      | some a ↦ false
    ])
unfolding is_withdrawn
is_withdrawn_lem neighbor advertised r n h =
    elim (Option-cases (find_key node_of r.destination_node advertised)) [
      | inl e ↦ ground (arith, e, any_of-same r advertised n h e)
      | inr (a, e) ↦ ground (arith, e, any_of-same_found r a advertised n h e)
    ]

-- A withdrawn route is erased; any other stays as it is.
erase_withdrawn-find :
    (neighbor : NodeId) (advertised rs : List Route) (k : NodeId)
    → All Named advertised
    → IsRoutes rs
    → hop (find_key node_of k (erase_if (is_withdrawn neighbor advertised) rs)) ≡ (
        if bytes_eq k neighbor
        then hop (find_key node_of k rs)
        else elim (find_key node_of k advertised) [
          | none ↦ forget neighbor (hop (find_key node_of k rs))
          | some r ↦ hop (find_key node_of k rs)
        ])
erase_withdrawn-find neighbor advertised rs k h v =
    let p = is_withdrawn neighbor advertised in
    elim (Option-cases (find_key node_of k rs)) [
      | inl e ↦ ground (arith, e, find_key-erase_if node_of p k rs v.unique)
      | inr (r, e) ↦
          let at_k : r.destination_node ≡ k = find_key-key node_of k rs r e in
          ground (
            arith,
            e,
            at_k,
            find_key-erase_if node_of p k rs v.unique,
            is_withdrawn_lem neighbor advertised r (All-find_key node_of Named k rs r v.named e) h,
          )
    ]

apply_routes-find :
    (neighbor : NodeId) (now cost : ℕ) (advertised rs : List Route) (k : NodeId)
    → All Named advertised
    → Unique node_of advertised
    → IsGood rs
    → length rs + length advertised ≤ max_route_table_entries
    → hop (find_key node_of k (apply_routes rs neighbor advertised now cost).routes)
      ≡ updated neighbor cost advertised k (hop (find_key node_of k rs))
unfolding apply_routes
apply_routes-find neighbor now cost advertised rs k h u v room =
    let kept = erase_if (is_withdrawn neighbor advertised) rs in
    ground (
      arith,
      apply_loop-find neighbor now cost advertised
          (record { routes = kept; changed = not (length kept == length rs) }) k h u
          (erase_if-IsGood (is_withdrawn neighbor advertised) rs v)
          (omega (arith, room, length-erase_if (is_withdrawn neighbor advertised) rs)),
      erase_withdrawn-find neighbor advertised rs k h v.0,
    )

-- Given a well-formed table with metrics up to infinity, advertised routes that name their nodes,
-- each once, and room for all of them, an accepted update is the distance-vector step at every
-- node at once, on next hop and metric: the entry of the neighbour itself stays, every other node
-- that is advertised is relaxed by link cost plus advertised metric, capped at infinity, and a
-- route through the neighbour to any other node is withdrawn.
pub distance_vector_update-find :
    (table : RouteTable) (neighbor : NodeId) (adv : RouteAdvertisement) (now cost : ℕ)
    (origins : Option RouteOriginStates) (k : NodeId)
    → All Named adv.routes
    → Unique node_of adv.routes
    → IsGood table.routes
    → length table.routes + length adv.routes ≤ max_route_table_entries
    → (distance_vector_update table neighbor adv now cost origins).accepted ≡ true
    → hop (routing_find_route (distance_vector_update table neighbor adv now cost origins).table k)
      ≡ updated neighbor cost adv.routes k (hop (routing_find_route table k))
unfolding distance_vector_update merged routing_find_route
distance_vector_update-find table neighbor adv now cost none k h u v room ok =
    ground (arith, apply_routes-find neighbor now cost adv.routes table.routes k h u v room)
distance_vector_update-find table neighbor adv now cost (some origins) k h u v room ok =
    ground (arith, apply_routes-find neighbor now cost adv.routes table.routes k h u v room)
