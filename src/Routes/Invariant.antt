-- ===== src/Routes/Invariant.antt =====
-- What every merge keeps: the size of the table, one route to a node, and metrics up to infinity.
use madoka.Common.{
  ℕ, ◌≤◌, ◌≡◌, refl, sym, Bool, List, [], ◌∷◌, Option, none, some, arith, length-append,
  length-erase_if, All, All-append, All-update_first, All-erase_if, update_first, erase_if,
}
use madoka.Bytes.{NodeId}
use madoka.Keyed.{find_key, Unique-append, Unique-erase_if}
use madoka.Routes.Route.{Route, same_destination, route_metric_infinity, route_create}
use madoka.Routes.Table.{RouteTable, node_of}
use madoka.Routes.Advertisement.{RouteAdvertisement}
use madoka.Routes.DistanceVector.{
  Progress, RouteOriginStates, candidate_metric, merge_candidate, poison, apply_route, apply_loop,
  apply_routes, is_withdrawn, merged, distance_vector_update,
}
use madoka.Routes.Lookup.{Named}
use madoka.Routes.Relax.{IsRoutes, find_same, candidate_of, write-IsRoutes}

abbrev pub Bounded : Route → Type 0
Bounded r = r.metric ≤ route_metric_infinity

abbrev pub IsGood : List Route → Type 0
IsGood rs = IsRoutes rs × All Bounded rs

write-IsGood :
    (adv : Route) (rs : List Route) (f : Route → Route)
    → ((r : Route)
        → r.destination_node ≡ adv.destination_node
        → (f r).destination_node ≡ r.destination_node)
    → ((r : Route) → Bounded r → Bounded (f r))
    → Named adv
    → IsGood rs
    → IsGood (update_first (λ r. same_destination r adv) f rs)
write-IsGood adv rs f same small h v = (
  write-IsRoutes adv rs f same h v.0,
  All-update_first (λ r. same_destination r adv) Bounded f rs (λ r _ b. small r b) v.1,
)

merge_candidate-IsGood :
    (neighbor : NodeId) (now metric : ℕ) (adv : Route) (s : Progress) (existing : Option Route)
    → find_key node_of adv.destination_node s.routes ≡ existing
    → metric ≤ route_metric_infinity
    → Named adv
    → IsGood s.routes
    → IsGood
        (merge_candidate neighbor now adv (candidate_of neighbor now metric adv) s existing).routes
unfolding merge_candidate route_create
merge_candidate-IsGood neighbor now metric adv s none e m h v =
    let c = candidate_of neighbor now metric adv in
    ground (
      arith,
      length-append s.routes (c ∷ []),
      All-append Named s.routes (c ∷ []) v.0.named (h, tt),
      All-append Bounded s.routes (c ∷ []) v.1 (m, tt),
      Unique-append node_of s.routes c v.0.unique,
    )
merge_candidate-IsGood neighbor now metric adv s (some old) e m h v = ground (
  arith,
  write-IsGood adv s.routes (λ _. candidate_of neighbor now metric adv) (λ r e. sym e) (λ r _. m) h
      v,
  write-IsGood adv s.routes (λ r. record r { last_update = now }) (λ r e. refl) (λ r b. b) h v,
)

poison-IsGood :
    (neighbor : NodeId) (now : ℕ) (adv : Route) (s : Progress) (existing : Option Route)
    → Named adv
    → IsGood s.routes
    → IsGood (poison neighbor now adv s existing).routes
unfolding poison
poison-IsGood neighbor now adv s none h v = v
poison-IsGood neighbor now adv s (some old) h v = ground (
  arith,
  write-IsGood adv s.routes (λ r. record r { metric = route_metric_infinity; last_update = now })
      (λ r e. refl) (λ r b. omega arith) h v,
)

pub apply_route-IsGood :
    (neighbor : NodeId) (now cost : ℕ) (adv : Route) (s : Progress)
    → Named adv
    → IsGood s.routes
    → IsGood (apply_route neighbor now cost adv s).routes
unfolding apply_route
apply_route-IsGood neighbor now cost adv s h v =
    let old = find_key node_of adv.destination_node s.routes in
    rw (find_same adv s.routes h v.0) (
      ground (
        arith,
        poison-IsGood neighbor now adv s old h v,
        merge_candidate-IsGood neighbor now (candidate_metric cost adv) adv s old refl,
      ))

pub apply_loop-IsGood :
    (neighbor : NodeId) (now cost : ℕ) (advertised : List Route) (s : Progress)
    → All Named advertised
    → IsGood s.routes
    → IsGood (apply_loop neighbor now cost advertised s).routes
unfolding apply_loop
apply_loop-IsGood neighbor now cost [] s h v = v
apply_loop-IsGood neighbor now cost (r ∷ rest) s h v =
    apply_loop-IsGood neighbor now cost rest (apply_route neighbor now cost r s) h.1
      (apply_route-IsGood neighbor now cost r s h.0 v)

pub erase_if-IsGood : (p : Route → Bool) (rs : List Route) → IsGood rs → IsGood (erase_if p rs)
erase_if-IsGood p rs v = (
  record {
    fits = omega (arith, length-erase_if p rs, v.0.fits);
    named = All-erase_if p Named rs v.0.named;
    unique = Unique-erase_if node_of p rs v.0.unique;
  },
  All-erase_if p Bounded rs v.1,
)

apply_routes-IsGood :
    (rs : List Route) (neighbor : NodeId) (advertised : List Route) (now cost : ℕ)
    → All Named advertised
    → IsGood rs
    → IsGood (apply_routes rs neighbor advertised now cost).routes
unfolding apply_routes
apply_routes-IsGood rs neighbor advertised now cost h v =
    apply_loop-IsGood neighbor now cost advertised _ h
      (erase_if-IsGood (is_withdrawn neighbor advertised) rs v)

-- Whatever a neighbour advertises, as long as its routes name their nodes, a table of at most 16
-- routes, each of which names its node, with one route to a node and no metric above infinity, stays
-- one, when the advertisement is refused as well.
pub distance_vector_update-IsGood :
    (table : RouteTable) (neighbor : NodeId) (adv : RouteAdvertisement) (now cost : ℕ)
    (origins : Option RouteOriginStates)
    → All Named adv.routes
    → IsGood table.routes
    → IsGood (distance_vector_update table neighbor adv now cost origins).table.routes
unfolding distance_vector_update merged
distance_vector_update-IsGood table neighbor adv now cost none h v =
    ground (arith, apply_routes-IsGood table.routes neighbor adv.routes now cost h v)
distance_vector_update-IsGood table neighbor adv now cost (some origins) h v =
    ground (arith, apply_routes-IsGood table.routes neighbor adv.routes now cost h v)
