-- ===== src/Forward/Balance.antt =====
-- The counters of dropped packets, in all and by their reasons.
use madoka.Common.{◌+◌, ◌-◌, ◌%◌, ◌^◌, ◌≡◌, Bool, Option, none, some, arith, if◌then◌else◌}
use madoka.Bytes.{IsU64}
use madoka.Packet.{DataPacket}
use madoka.Routes.Table.{RouteTable, RouteEntry, routing_lookup}
use madoka.Forward.{ForwardingState, ForwardingMetrics, forward_at, forward_impl, route_packet}

-- Every dropped packet is counted under its reason, also when the counters wrap.
abbrev Balanced : ForwardingMetrics → Type 0
Balanced m =
    IsU64 m.dropped_packets
    × (m.dropped_packets ≡ (m.ttl_expired_packets + m.unknown_destination_packets) % 2 ^ 64)

route_packet-Balanced :
    (s : ForwardingState) (p : DataPacket) (r : Option RouteEntry)
    → Balanced s.metrics
    → Balanced (route_packet s p r).state.metrics
unfolding route_packet
route_packet-Balanced s p none b = omega arith
route_packet-Balanced s p (some r) b = ground arith

-- Both ways of forwarding keep the drop counter below 2^64 and equal, modulo 2^64, to the sum of
-- the two counters of reasons.
forward_impl-Balanced :
    (s : ForwardingState) (p : DataPacket) (decrement : Bool)
    → Balanced s.metrics
    → Balanced (forward_impl s p decrement).state.metrics
unfolding forward_impl
forward_impl-Balanced s p decrement b = at s.table
  where
    at : (t : Option RouteTable) → Balanced (forward_at s p decrement t).state.metrics
    at none = b
    at (some t) =
        let sent : DataPacket = if decrement then record p { ttl = p.ttl - 1 } else p in
        ground (arith, route_packet-Balanced s sent (routing_lookup t p.destination) b)
