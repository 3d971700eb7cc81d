-- ===== src/Routes/Loop.antt =====
-- The loop over the advertised routes, as relaxation steps node by node.

use madoka.Common.{
  ℕ, ◌≤◌, ◌+◌, ◌≡◌, refl, ap, subst, ◌∙◌, true, false, List, [], ◌∷◌, Option, none, some, arith,
  length, length-append, length-update_first, if◌then◌else◌, All, ◌≢◌, inl, inr, Bool-cases, any_of,
  find_if,
}
use madoka.Bytes.{NodeId, bytes_eq, bytes_eq_iff, bytes_eq-ne}
use madoka.Keyed.{Unique, find_key}
use madoka.Routes.Route.{Route, same_destination, route_metric_infinity}
use madoka.Routes.Table.{node_of, max_route_table_entries}
use madoka.Routes.DistanceVector.{
  Progress, candidate_metric, merge_candidate, poison, apply_route, apply_loop,
}
use madoka.Routes.Lookup.{Named, same_destination-Named}
use madoka.Routes.Relax.{Hop, hop, relax, candidate_of, apply_route-find}
use madoka.Routes.Invariant.{IsGood, apply_route-IsGood}

-- What the neighbour says of a node that is not itself.
abbrev pub heard : NodeId → List Route → NodeId → Option Route
heard neighbor advertised k = if bytes_eq k neighbor then none else find_key node_of k advertised

-- The hop to a node after one word of the neighbour, or none.
abbrev pub told : NodeId → ℕ → Option Route → Option Hop → Option Hop
told neighbor cost none old = old
told neighbor cost (some r) old = relax neighbor (candidate_metric cost r) old

heard-cons :
    (neighbor : NodeId) (r : Route) (rest : List Route) (k : NodeId)
    → heard neighbor (r ∷ rest) k ≡ (
        if bytes_eq k neighbor
        then none
        else if bytes_eq r.destination_node k
        then some r
        else heard neighbor rest k)
unfolding find_key
heard-cons neighbor r rest k = ground arith

-- A node of which the neighbour says nothing more is forgotten if the route went through it.
abbrev pub forget : NodeId → Option Hop → Option Hop
forget neighbor none = none
forget neighbor (some (next, metric)) = if bytes_eq next neighbor then none else some (next, metric)

length-poison :
    (neighbor : NodeId) (now : ℕ) (adv : Route) (s : Progress) (existing : Option Route)
    → length (poison neighbor now adv s existing).routes ≡ length s.routes
unfolding poison
length-poison neighbor now adv s none = refl
length-poison neighbor now adv s (some old) = ground (
  arith,
  length-update_first (λ r. same_destination r adv)
      (λ r. record r { metric = route_metric_infinity; last_update = now }) s.routes,
)

length-merge_candidate :
    (neighbor : NodeId) (now : ℕ) (adv candidate : Route) (s : Progress) (existing : Option Route)
    → length (merge_candidate neighbor now adv candidate s existing).routes ≤ length s.routes + 1
unfolding merge_candidate
length-merge_candidate neighbor now adv candidate s none =
    ground (arith, length-append s.routes (candidate ∷ []))
length-merge_candidate neighbor now adv candidate s (some old) = ground (
  arith,
  length-update_first (λ r. same_destination r adv) (λ _. candidate) s.routes,
  length-update_first (λ r. same_destination r adv) (λ r. record r { last_update = now }) s.routes,
)

length-apply_route :
    (neighbor : NodeId) (now cost : ℕ) (adv : Route) (s : Progress)
    → length (apply_route neighbor now cost adv s).routes ≤ length s.routes + 1
unfolding apply_route
length-apply_route neighbor now cost adv s =
    let old = find_if (λ r. same_destination r adv) s.routes in
    ground (
      arith,
      length-poison neighbor now adv s old,
      length-merge_candidate neighbor now adv
          (candidate_of neighbor now (candidate_metric cost adv) adv) s old,
    )

apply_route-skip :
    (neighbor : NodeId) (now cost : ℕ) (adv : Route) (s : Progress)
    → adv.destination_node ≡ neighbor
    → apply_route neighbor now cost adv s ≡ s
unfolding apply_route
apply_route-skip neighbor now cost adv s e =
    ground (arith, bytes_eq_iff adv.destination_node neighbor)

-- Nothing is heard of a node twice.
heard_once :
    (neighbor : NodeId) (r : Route) (rest : List Route)
    → find_key node_of r.destination_node rest ≡ none
    → heard neighbor rest r.destination_node ≡ none
heard_once neighbor r rest e = ground (arith, e)

heard-collapse :
    (neighbor : NodeId) (rest : List Route) (k : NodeId)
    → (if bytes_eq k neighbor then none else heard neighbor rest k) ≡ heard neighbor rest k
heard-collapse neighbor rest k = ground arith

heard-skip :
    (neighbor : NodeId) (r : Route) (rest : List Route) (k : NodeId)
    → r.destination_node ≡ neighbor
    → heard neighbor (r ∷ rest) k ≡ heard neighbor rest k
unfolding find_key
heard-skip neighbor r rest k e =
    ground (arith, bytes_eq_iff k neighbor, bytes_eq_iff r.destination_node k)

told_step :
    (neighbor : NodeId) (cost : ℕ) (r : Route) (rest : List Route) (k : NodeId)
    (old new : Option Hop)
    → r.destination_node ≢ neighbor
    → find_key node_of r.destination_node rest ≡ none
    → new ≡ (
        if bytes_eq r.destination_node k then relax neighbor (candidate_metric cost r) old else old)
    → told neighbor cost (heard neighbor rest k) new
      ≡ told neighbor cost (heard neighbor (r ∷ rest) k) old
told_step neighbor cost r rest k old new other once e =
    elim (Bool-cases (bytes_eq r.destination_node k)) [
      | inl same ↦
          let p : r.destination_node ≡ k = (bytes_eq_iff r.destination_node k).0 same in
          let silent : heard neighbor rest k ≡ none =
            subst (λ j. heard neighbor rest j ≡ none) p (heard_once neighbor r rest once) in
          let apart : bytes_eq k neighbor ≡ false = ground (arith, bytes_eq_iff k neighbor) in
          rw (heard-cons neighbor r rest k, silent, apart, same) (rw same at e)
      | inr ne ↦
          rw (heard-cons neighbor r rest k, ne)
            (rw (rw ne at e) (rw (heard-collapse neighbor rest k)))
    ]

pub apply_loop-find :
    (neighbor : NodeId) (now cost : ℕ) (advertised : List Route) (s : Progress) (k : NodeId)
    → All Named advertised
    → Unique node_of advertised
    → IsGood s.routes
    → length s.routes + length advertised ≤ max_route_table_entries
    → hop (find_key node_of k (apply_loop neighbor now cost advertised s).routes)
      ≡ told neighbor cost (heard neighbor advertised k) (hop (find_key node_of k s.routes))
unfolding apply_loop
apply_loop-find neighbor now cost [] s k h u v room = unfold find_key in ground arith
apply_loop-find neighbor now cost (r ∷ rest) s k h u v room =
    let s' = apply_route neighbor now cost r s in
    let ih =
      apply_loop-find neighbor now cost rest s' k h.1 u.1
        (apply_route-IsGood neighbor now cost r s h.0 v)
        (omega (arith, room, length-apply_route neighbor now cost r s)) in
    elim (Bool-cases (bytes_eq r.destination_node neighbor)) [
      | inl skip ↦
          let e = (bytes_eq_iff r.destination_node neighbor).0 skip in
          rw (heard-skip neighbor r rest k e) (
            ih
            ∙ ap
                (λ (t : Progress).
                  told neighbor cost (heard neighbor rest k) (hop (find_key node_of k t.routes)))
                (apply_route-skip neighbor now cost r s e))
      | inr other ↦
          ih
          ∙ told_step neighbor cost r rest k _ _ (bytes_eq-ne _ _ other) u.0 (
              apply_route-find neighbor now cost r s k (bytes_eq-ne _ _ other) h.0 v.0
                (omega arith))
    ]

pub any_of-same :
    (r : Route) (advertised : List Route)
    → Named r
    → All Named advertised
    → find_key node_of r.destination_node advertised ≡ none
    → any_of (same_destination r) advertised ≡ false
unfolding any_of find_key
any_of-same r [] n h e = refl
any_of-same r (a ∷ rest) n h e = ground (
  arith,
  same_destination-Named r a,
  bytes_eq_iff a.destination_node r.destination_node,
  bytes_eq_iff r.destination_node a.destination_node,
  any_of-same r rest n h.1,
)

pub any_of-same_found :
    (r a : Route) (advertised : List Route)
    → Named r
    → All Named advertised
    → find_key node_of r.destination_node advertised ≡ some a
    → any_of (same_destination r) advertised ≡ true
unfolding any_of find_key
any_of-same_found r a [] n h e = absurd (ground arith)
any_of-same_found r a (b ∷ rest) n h e = ground (
  arith,
  same_destination-Named r b,
  bytes_eq_iff b.destination_node r.destination_node,
  bytes_eq_iff r.destination_node b.destination_node,
  any_of-same_found r a rest n h.1,
)
