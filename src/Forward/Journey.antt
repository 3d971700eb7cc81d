-- ===== src/Forward/Journey.antt =====
-- A packet on its way through a network. The network is not code of the repository: it is any
-- assignment of forwarding states to nodes, and a hop is one call of `forwarding_forward` at the
-- node that the last `transmit` named. The routing tables are arbitrary, loops included.
use madoka.Common.{
  ℕ, zero, suc, ◌<◌, ◌≤◌, ◌-◌, ◌≡◌, List, [], ◌∷◌, Option, none, some, arith, true, Option-cases,
  inl, inr,
}
use mathlib.Core.Option
use madoka.Bytes.{NodeId}
use madoka.Packet.{DataPacket}
use madoka.Routes.Table.{RouteTable, RouteEntry, routing_lookup}
use madoka.Forward.{
  ForwardingState, Event, transmit, deliver, drop, forwarding_forward, forward_at, route_packet,
}

-- Where the packet goes next, if it is sent on.
abbrev next_leg : List Event → Option (NodeId × DataPacket)
next_leg [] = none
next_leg (transmit next p ∷ rest) = some (next, p)
next_leg (deliver p ∷ rest) = none
next_leg (drop p reason ∷ rest) = none

-- The number of transmissions until the packet is delivered or dropped; `none` when the fuel ends
-- first.
unfoldable pub journey : ℕ → (NodeId → ForwardingState) → NodeId → DataPacket → Option ℕ
journey zero network x p = none
journey (suc fuel) network x p = elim (next_leg (forwarding_forward (network x) p).events) [
  | none ↦ some 0
  | some (y, q) ↦ Option.map suc (journey fuel network y q)
]

route_packet-leg :
    (s : ForwardingState) (p q : DataPacket) (r : Option RouteEntry) (y : NodeId)
    → next_leg (route_packet s p r).events ≡ some (y, q)
    → q.ttl ≡ p.ttl
unfolding route_packet
route_packet-leg s p q none y h = absurd (ground arith)
route_packet-leg s p q (some r) y h = ground arith

forward_at-leg :
    (s : ForwardingState) (t : Option RouteTable) (p q : DataPacket) (y : NodeId)
    → next_leg (forward_at s p true t).events ≡ some (y, q)
    → (1 < p.ttl) × (q.ttl ≡ p.ttl - 1)
unfolding forward_at
forward_at-leg s none p q y h = absurd (ground arith)
forward_at-leg s (some t) p q y h =
    ground (
      arith,
      route_packet-leg s (record p { ttl = p.ttl - 1 }) q (routing_lookup t p.destination) y,
    )

forward-leg :
    (s : ForwardingState) (p q : DataPacket) (y : NodeId)
    → next_leg (forwarding_forward s p).events ≡ some (y, q)
    → (1 < p.ttl) × (q.ttl ≡ p.ttl - 1)
unfolding forwarding_forward
forward-leg s p q y h = forward_at-leg s s.table p q y h

-- No packet circulates for ever: in any network of forwarding states, from any node, fuel above
-- the ttl sees the packet to its end, after fewer transmissions than its ttl (none, when that is
-- 0).
pub journey_ends :
    (fuel : ℕ) (network : NodeId → ForwardingState) (x : NodeId) (p : DataPacket)
    → p.ttl < fuel
    → (hops : ℕ) × (journey fuel network x p ≡ some hops) × (hops ≤ p.ttl - 1)
unfolding journey
journey_ends zero network x p h = elim h [ ]
journey_ends (suc fuel) network x p h =
    elim (Option-cases (next_leg (forwarding_forward (network x) p).events)) [
      | inl e ↦ (0, rw (e, journey), omega arith)
      | inr ((y, q), e) ↦
          let leg = forward-leg (network x) p q y e in
          let (hops, ends, few) = journey_ends fuel network y q (omega (arith, leg, h)) in
          (suc hops, rw (e, journey) (rw ends), omega (arith, leg, few))
    ]
