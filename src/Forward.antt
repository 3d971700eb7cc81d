-- ===== src/Forward.antt =====
-- include/network/forwarding.hpp, src/network/forwarding.cpp and include/metrics.hpp: what a node
-- does with a data packet. A callback that is set is called once where an event is recorded here;
-- the callbacks get the packet by const reference and are the client's.
pub mod Balance
pub mod Outcome
pub mod Journey
mod Tests
use madoka.Common.{
  ℕ, ◌+◌, ◌-◌, ◌%◌, ◌^◌, Bool, true, false, ◌&&◌, ◌||◌, List, [], ◌∷◌, Option, none, some, leb,
  if◌then◌else◌, not,
}
use madoka.Bytes.{NodeId, zero_id, bytes_eq}
use madoka.Packet.{DataPacket}
use madoka.Routes.Route.{route_metric_infinity}
use madoka.Routes.Table.{RouteTable, RouteEntry, routing_lookup}

pub data ForwardAction : Type 0 where
  deliver_locally forward_to_peer drop_no_route drop_invalid drop_ttl_expired : ForwardAction

-- `uint64_t` counters.
pub record ForwardingMetrics : Type 0 where
  pub forwarded_packets : ℕ
  pub dropped_packets : ℕ
  pub ttl_expired_packets : ℕ
  pub unknown_destination_packets : ℕ

-- `table` is `none` for a null pointer. The last three fields say which callbacks are set.
pub record ForwardingState : Type 0 where
  pub table : Option RouteTable
  pub local_id : NodeId
  pub has_local_id : Bool
  pub metrics : ForwardingMetrics
  pub last_action : ForwardAction
  pub last_next_hop : NodeId
  pub transmit_handler : Bool
  pub local_delivery_handler : Bool
  pub drop_handler : Bool

pub data DropReason : Type 0 where
  ttl_expired no_route : DropReason

-- A call of a callback.
pub data Event : Type 0 where
  transmit : NodeId → DataPacket → Event
  deliver : DataPacket → Event
  drop : DataPacket → DropReason → Event

-- `x++` on a `uint64_t`.
abbrev pub increment : ℕ → ℕ
increment x = (x + 1) % 2 ^ 64

abbrev zero_metrics : ForwardingMetrics
zero_metrics = record {
  forwarded_packets = 0;
  dropped_packets = 0;
  ttl_expired_packets = 0;
  unknown_destination_packets = 0;
}

abbrev blank : Option RouteTable → ForwardingState
blank table = record {
  table = table;
  local_id = zero_id;
  has_local_id = false;
  metrics = zero_metrics;
  last_action = drop_invalid;
  last_next_hop = zero_id;
  transmit_handler = false;
  local_delivery_handler = false;
  drop_handler = false;
}

-- `local_node_id` is `none` for a null pointer.
unfoldable pub forwarding_init : Option RouteTable → Option NodeId → ForwardingState
forwarding_init table none = blank table
forwarding_init table (some id) = record (blank table) { local_id = id; has_local_id = true }

-- The state and the packet after the call, and the callbacks called.
pub record Forwarded : Type 0 where
  pub state : ForwardingState
  pub packet : DataPacket
  pub events : List Event

abbrev when : Bool → Event → List Event
when set e = if set then e ∷ [] else []

deliver_here : ForwardingState → DataPacket → Forwarded
deliver_here state packet = record {
  state = record state { last_action = deliver_locally; last_next_hop = zero_id };
  packet = packet;
  events = when state.local_delivery_handler (deliver packet);
}

drop_expired : ForwardingState → DataPacket → Forwarded
drop_expired state packet =
    let m = state.metrics in
    let p : DataPacket = record packet { ttl = 0 } in
    record {
      state = record state {
        metrics = record m {
          ttl_expired_packets = increment m.ttl_expired_packets;
          dropped_packets = increment m.dropped_packets;
        };
        last_action = drop_ttl_expired;
      };
      packet = p;
      events = when state.drop_handler (drop p ttl_expired);
    }

drop_unrouted : ForwardingState → DataPacket → Forwarded
drop_unrouted state packet =
    let m = state.metrics in
    record {
      state = record state {
        metrics = record m {
          unknown_destination_packets = increment m.unknown_destination_packets;
          dropped_packets = increment m.dropped_packets;
        };
        last_action = drop_no_route;
        last_next_hop = zero_id;
      };
      packet = packet;
      events = when state.drop_handler (drop packet no_route);
    }

send : ForwardingState → DataPacket → NodeId → Forwarded
send state packet next_hop =
    let m = state.metrics in
    record {
      state = record state {
        metrics = record m { forwarded_packets = increment m.forwarded_packets };
        last_action = forward_to_peer;
        last_next_hop = next_hop;
      };
      packet = packet;
      events = when state.transmit_handler (transmit next_hop packet);
    }

-- The part from the lookup on.
unfoldable pub route_packet : ForwardingState → DataPacket → Option RouteEntry → Forwarded
unfolding drop_unrouted send
route_packet state packet none = drop_unrouted state packet
route_packet state packet (some route) =
    if not route.valid || leb route_metric_infinity route.metric
    then drop_unrouted state packet
    else send state packet route.next_hop

unfoldable pub forward_at : ForwardingState → DataPacket → Bool → Option RouteTable → Forwarded
unfolding route_packet deliver_here drop_expired
forward_at state packet decrement_ttl none = record { state = state; packet = packet; events = [] }
forward_at state packet decrement_ttl (some table) =
    if state.has_local_id && bytes_eq packet.destination state.local_id
    then deliver_here state packet
    else if decrement_ttl && leb packet.ttl 1
    then drop_expired state packet
    else route_packet state
        (if decrement_ttl then record packet { ttl = packet.ttl - 1 } else packet)
        (routing_lookup table packet.destination)

unfoldable pub forward_impl : ForwardingState → DataPacket → Bool → Forwarded
unfolding forward_at
forward_impl state packet decrement_ttl = forward_at state packet decrement_ttl state.table

unfoldable pub forwarding_forward : ForwardingState → DataPacket → Forwarded
unfolding forward_impl
forwarding_forward state packet = forward_impl state packet true

unfoldable pub forwarding_forward_origin : ForwardingState → DataPacket → Forwarded
unfolding forward_impl
forwarding_forward_origin state packet = forward_impl state packet false

unfoldable pub forwarding_set_transmit_handler : ForwardingState → Bool → ForwardingState
forwarding_set_transmit_handler state handler = record state { transmit_handler = handler }

unfoldable pub forwarding_set_local_delivery_handler : ForwardingState → Bool → ForwardingState
forwarding_set_local_delivery_handler state handler = record state {
  local_delivery_handler = handler;
}

unfoldable pub forwarding_set_drop_handler : ForwardingState → Bool → ForwardingState
forwarding_set_drop_handler state handler = record state { drop_handler = handler }
