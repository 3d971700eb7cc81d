-- ===== src/Routes/Expiry.antt =====
-- Expiry and the lookup that forwarding uses.

use madoka.Common.{
  ℕ, ◌≤◌, ◌+◌, ◌≡◌, List, some, arith, ◌↔◌, erase_if-erase_if, ap, Option-cases, inl, inr,
}
use madoka.Bytes.{NodeId}
use madoka.Keyed.{find_key, find_key-erase_if}
use madoka.Routes.Route.{Route}
use madoka.Routes.Table.{RouteTable, routing_find_route, routing_expire_routes, is_expired, node_of}
use madoka.Routes.Invariant.{IsGood, erase_if-IsGood}

-- On a well-formed table with metrics up to infinity, expiry forgets exactly the routes whose
-- last update lies more than the timeout before the current time; the others are found as before.
-- Expiring again at the same time changes nothing, and the table stays well-formed.
expire_routes-find :
    (table : RouteTable) (now timeout : ℕ) (k : NodeId)
    → IsGood table.routes
    → let t = routing_expire_routes table now timeout in
      ((r : Route)
        → (routing_find_route t k ≡ some r)
          ↔ ((routing_find_route table k ≡ some r) × (now ≤ r.last_update + timeout)))
      × (routing_expire_routes t now timeout ≡ t)
      × IsGood t.routes
unfolding routing_expire_routes routing_find_route is_expired
expire_routes-find table now timeout k v =
    let p = is_expired now timeout in
    let found = find_key-erase_if node_of p k table.routes v.0.unique in
    (
      λ r. elim (Option-cases (find_key node_of k table.routes)) [
        | inl e ↦ (ground (arith, e, found), ground (arith, e, found))
        | inr (q, e) ↦ (ground (arith, e, found), ground (arith, e, found))
      ],
      ap (λ (rs : List Route). record { routes = rs }) (erase_if-erase_if p table.routes),
      erase_if-IsGood p table.routes v,
    )
