-- ===== src/Routes/Relax.antt =====
-- One advertised route is one relaxation step of the distance-vector algorithm.
use mathlib.Core.Option
use madoka.Common.{
  ℕ, ◌<◌, ◌≡◌, refl, sym, ◌||◌, ◌&&◌, List, Option, none, some, arith, length, ltb, ◌==◌,
  length-update_first, if◌then◌else◌, All, All-mono, All-update_first, ◌≢◌, find_if, update_first,
  find_if-congr, update_first-congr,
}
use madoka.Bytes.{NodeId, bytes_eq, bytes_eq_iff, node_id_less}
use madoka.Keyed.{has_key, find_key, find_key-append, find_key-update_first, Unique-update_first}
use madoka.Routes.Route.{Route, same_destination, route_metric_infinity, route_create}
use madoka.Routes.Table.{node_of, max_route_table_entries}
use madoka.Routes.DistanceVector.{
  Progress, candidate_metric, accepts, route_changed, merge_candidate, poison, apply_route,
}
use madoka.Routes.Lookup.{Named, IsTable, same_destination-Named}

abbrev pub IsRoutes : List Route → Type 0
IsRoutes rs = IsTable (record { routes = rs })

-- A route to a node, as next hop and metric.
abbrev pub Hop : Type 0
Hop = NodeId × ℕ

abbrev pub hop : Option Route → Option Hop
hop none = none
hop (some r) = some (r.next_hop, r.metric)

-- The relaxation step. The neighbour's word replaces what was learnt from it; any other route yields
-- to a finite one that is shorter, or as short through a lower id.
abbrev pub relax : NodeId → ℕ → Option Hop → Option Hop
relax neighbor metric none =
    if ltb metric route_metric_infinity then some (neighbor, metric) else none
relax neighbor metric (some (next, old)) =
    if bytes_eq next neighbor
      || ltb metric route_metric_infinity
        && (ltb metric old || metric == old && node_id_less neighbor next)
    then some (neighbor, metric)
    else some (next, old)

same_as_key :
    (adv : Route) (rs : List Route)
    → Named adv
    → All Named rs
    → All (λ r. same_destination r adv ≡ has_key node_of adv.destination_node r) rs
same_as_key adv rs h n =
    All-mono Named (λ r. same_destination r adv ≡ has_key node_of adv.destination_node r)
      (λ r k. same_destination-Named r adv k h) rs n

-- A write to the entry for the advertised node.
module _ (adv : Route) (rs : List Route) (f : Route → Route)
    (same : (r : Route)
      → r.destination_node ≡ adv.destination_node
      → (f r).destination_node ≡ r.destination_node)
    (h : Named adv) (v : IsRoutes rs) where
  pub write-find :
      (k : NodeId)
      → find_key node_of k (update_first (λ r. same_destination r adv) f rs) ≡ (
          if bytes_eq adv.destination_node k
          then Option.map f (find_key node_of k rs)
          else find_key node_of k rs)
  write-find k =
      rw
        (update_first-congr (λ r. same_destination r adv) (has_key node_of adv.destination_node) f
          rs (same_as_key adv rs h v.named))
        (find_key-update_first node_of adv.destination_node f same k rs)

  pub write-IsRoutes : IsRoutes (update_first (λ r. same_destination r adv) f rs)
  write-IsRoutes =
      rw
        (update_first-congr (λ r. same_destination r adv) (has_key node_of adv.destination_node) f
          rs (same_as_key adv rs h v.named))
        (record {
          fits =
              omega
                (arith, length-update_first (has_key node_of adv.destination_node) f rs, v.fits);
          named =
              All-update_first (has_key node_of adv.destination_node) Named f rs
                (λ r e n. rw (same r ((bytes_eq_iff _ _).0 e)) n) v.named;
          unique = Unique-update_first node_of adv.destination_node f same rs v.unique;
        })

pub find_same :
    (adv : Route) (rs : List Route)
    → Named adv
    → IsRoutes rs
    → find_if (λ r. same_destination r adv) rs ≡ find_key node_of adv.destination_node rs
unfolding find_key
find_same adv rs h v =
    find_if-congr (λ r. same_destination r adv) (has_key node_of adv.destination_node) rs
      (same_as_key adv rs h v.named)

-- The entry that a finite offer writes, when it writes.
abbrev pub candidate_of : NodeId → ℕ → ℕ → Route → Route
candidate_of neighbor now metric adv =
    route_create adv.destination neighbor metric now adv.destination_node

merge_candidate-find :
    (neighbor : NodeId) (now metric : ℕ) (adv : Route) (s : Progress) (k : NodeId)
    (existing : Option Route)
    → find_key node_of adv.destination_node s.routes ≡ existing
    → metric < route_metric_infinity
    → Named adv
    → IsRoutes s.routes
    → length s.routes < max_route_table_entries
    → hop (
        find_key node_of k
          (merge_candidate neighbor now adv
            (candidate_of neighbor now metric adv)
            s
            existing).routes)
      ≡ (if bytes_eq adv.destination_node k
          then relax neighbor metric (hop (find_key node_of k s.routes))
          else hop (find_key node_of k s.routes))
unfolding merge_candidate route_create accepts route_changed
merge_candidate-find neighbor now metric adv s k none e m h v room = ground (
  arith,
  bytes_eq_iff adv.destination_node k,
  find_key-append node_of k s.routes (candidate_of neighbor now metric adv),
)
merge_candidate-find neighbor now metric adv s k (some old) e m h v room = ground (
  arith,
  bytes_eq_iff adv.destination_node k,
  bytes_eq_iff old.next_hop neighbor,
  write-find adv s.routes (λ _. candidate_of neighbor now metric adv) (λ r e. sym e) h v k,
  write-find adv s.routes (λ r. record r { last_update = now }) (λ r e. refl) h v k,
)

poison-find :
    (neighbor : NodeId) (now : ℕ) (adv : Route) (s : Progress) (k : NodeId)
    (existing : Option Route)
    → find_key node_of adv.destination_node s.routes ≡ existing
    → Named adv
    → IsRoutes s.routes
    → hop (find_key node_of k (poison neighbor now adv s existing).routes) ≡ (
        if bytes_eq adv.destination_node k
        then relax neighbor route_metric_infinity (hop (find_key node_of k s.routes))
        else hop (find_key node_of k s.routes))
unfolding poison
poison-find neighbor now adv s k none e h v = ground (arith, bytes_eq_iff adv.destination_node k)
poison-find neighbor now adv s k (some old) e h v = ground (
  arith,
  bytes_eq_iff adv.destination_node k,
  bytes_eq_iff old.next_hop neighbor,
  write-find adv s.routes (λ r. record r { metric = route_metric_infinity; last_update = now })
      (λ r e. refl) h v k,
)

-- On a well-formed table with room for one more route, one advertised route to a named node other
-- than the neighbour leaves the relaxed hop for that node and the hop as it was for every other,
-- the hop being next hop and metric.
pub apply_route-find :
    (neighbor : NodeId) (now cost : ℕ) (adv : Route) (s : Progress) (k : NodeId)
    → adv.destination_node ≢ neighbor
    → Named adv
    → IsRoutes s.routes
    → length s.routes < max_route_table_entries
    → hop (find_key node_of k (apply_route neighbor now cost adv s).routes) ≡ (
        if bytes_eq adv.destination_node k
        then relax neighbor (candidate_metric cost adv) (hop (find_key node_of k s.routes))
        else hop (find_key node_of k s.routes))
unfolding apply_route
apply_route-find neighbor now cost adv s k other h v room =
    let old = find_key node_of adv.destination_node s.routes in
    rw (find_same adv s.routes h v) (
      ground (
        arith,
        bytes_eq_iff adv.destination_node neighbor,
        poison-find neighbor now adv s k old refl h v,
        merge_candidate-find neighbor now (candidate_metric cost adv) adv s k old refl,
      ))
