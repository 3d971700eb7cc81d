-- ===== src/Forward/Tests.antt =====
-- A node that forwards a concrete packet, and the theorems on it.
use madoka.Common.{
  if◌then◌else◌, ℕ, ◌-◌, ◌≤◌, ◌≡◌, refl, true, false, [], ◌∷◌, some, arith, length, replicate, ◌↔◌,
}
use madoka.Bytes.{NodeId, zero_id, zero_address, bytes_eq}
use madoka.Keyed.{find_key}
use madoka.Common.{find_if}
use madoka.Packet.{DataPacket, data_packet}
use madoka.Routes.Table.{RouteTable, routing_lookup}
use madoka.Forward.{
  ForwardingState, Forwarded, Event, transmit, deliver, drop, ttl_expired, increment,
  forwarding_init, forwarding_forward, forwarding_forward_origin, forward_impl,
  forwarding_set_transmit_handler, forwarding_set_local_delivery_handler,
  forwarding_set_drop_handler,
}
use madoka.Forward.Outcome.{
  IsLocal, IsRouted, transmits, HasRoute, forward_transmit, forward_one_event,
}
use madoka.Forward.Journey.{journey, journey_ends}

abbrev here : NodeId
here = 1 ∷ replicate 31 0

abbrev there : NodeId
there = 2 ∷ replicate 31 0

abbrev far : NodeId
far = 3 ∷ replicate 31 0

abbrev routes : RouteTable
routes = record {
  routes =
      record {
        destination = zero_address;
        destination_node = far;
        next_hop = there;
        metric = 2;
        last_update = 5;
      }
      ∷ [];
}

abbrev node : ForwardingState
node = record {
  table = some routes;
  local_id = here;
  has_local_id = true;
  metrics = record {
    forwarded_packets = 4;
    dropped_packets = 3;
    ttl_expired_packets = 1;
    unknown_destination_packets = 2;
  };
  last_action = madoka.Forward.drop_invalid;
  last_next_hop = zero_id;
  transmit_handler = true;
  local_delivery_handler = true;
  drop_handler = true;
}

abbrev to_far : DataPacket
to_far = record {
  type = data_packet;
  source = here;
  destination = far;
  packet_id = 1;
  ttl = 9;
  requires_ack = false;
  sequence_number = 0;
  payload = 5 ∷ [];
}

abbrev sent_on : DataPacket
sent_on = record to_far { ttl = 8 }

to_far_sent : (forwarding_forward node to_far).events ≡ transmit there sent_on ∷ []
unfolding forwarding_forward routing_lookup find_key find_if bytes_eq
to_far_sent = refl

forward_transmit_example :
    (((forwarding_forward node to_far).events ≡ transmit there sent_on ∷ []) ↔ (
      IsRouted true node to_far
      × (sent_on ≡ record to_far { ttl = 9 - 1 })
      × HasRoute routes far there))
    × ((forwarding_forward node to_far).state.metrics.forwarded_packets
        ≡ (if transmits (forwarding_forward node to_far).events then increment 4 else 4))
forward_transmit_example = forward_transmit true node routes to_far sent_on there refl refl

forward_one_event_example :
    (length (forwarding_forward node to_far).events ≡ 1)
    × (((forwarding_forward node to_far).events ≡ deliver to_far ∷ []) ↔ IsLocal node to_far)
    × (((forwarding_forward node to_far).events ≡ drop (record to_far { ttl = 0 }) ttl_expired ∷ [])
        ↔ (¬ IsLocal node to_far × ((true ≡ true) × (9 ≤ 1))))
forward_one_event_example = forward_one_event true node routes to_far refl refl refl refl

-- Every node of this network sends the packet to `there`, for ever but for the ttl.
abbrev loop : NodeId → ForwardingState
loop id = record node { local_id = zero_id }

journey_ends_example : (hops : ℕ) × (journey 10 loop here to_far ≡ some hops) × (hops ≤ 9 - 1)
journey_ends_example = journey_ends 10 loop here to_far (omega arith)

-- Small runs.
origin_keeps_ttl : (forwarding_forward_origin node to_far).packet ≡ to_far
unfolding forwarding_forward_origin routing_lookup find_key find_if bytes_eq
origin_keeps_ttl = refl

handlers_set :
    (forwarding_set_drop_handler
      (forwarding_set_local_delivery_handler
        (forwarding_set_transmit_handler (forwarding_init (some routes) (some here)) true)
        true)
      false).local_delivery_handler
    ≡ true
unfolding forwarding_set_drop_handler forwarding_set_local_delivery_handler
    forwarding_set_transmit_handler forwarding_init
handlers_set = refl
