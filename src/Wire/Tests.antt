-- ===== src/Wire/Tests.antt =====
-- Concrete messages on the wire, and the theorems on them.
use madoka.Common.{◌≡◌, refl, sym, subst, true, [], ◌∷◌, none, arith, replicate, map}
use madoka.Bytes.{zero_id, zero_address}
use madoka.Bytes.Slice.{ok, err}
use madoka.Bytes.Words.{read_u16_be}
use madoka.Control.{ControlMessage, control_message_validate}
use madoka.Routes.Advertisement.{RouteAdvertisement}
use madoka.Wire.{
  serialize_control_message, deserialize_control_message, deserialize_hello_message, bad_hello_size,
}
use madoka.Wire.RoundTrip.{deserialize_control-serialize}
use madoka.Wire.Advertisement.{serialize_route_advertisement, deserialize_route_advertisement}
use madoka.Wire.Learned.{IsAdvertisement, learned, deserialize_advertisement-serialize}
use madoka.Kademlia.{NodeContact}
use madoka.Join.Message.{JoinRequest, JoinResponse}
use madoka.Wire.Contact.{
  short_contact, deserialize_node_contact, truncated_neighbors, read_contacts,
}
use madoka.Wire.Contact.RoundTrip.{FitsWire}
use madoka.Wire.Join.{
  serialize_join_request, deserialize_join_request, boot_contact, serialize_join_response,
  deserialize_join_response, deserialize_neighbors,
}
use madoka.Wire.Join.RoundTrip.{
  FitsRequest, deserialize_request-serialize, announced, deserialize_response-serialize,
}

abbrev find_node : ControlMessage
find_node = record { type = 6; sequence_number = 300; sender = zero_id; payload = 4 ∷ [] }

find_node_valid : control_message_validate find_node ≡ none
unfolding control_message_validate
find_node_valid = refl

deserialize_control-serialize_example :
    deserialize_control_message (serialize_control_message find_node) ≡ ok find_node
deserialize_control-serialize_example =
    deserialize_control-serialize find_node find_node_valid (omega arith) refl

abbrev told_routes : RouteAdvertisement
told_routes = record {
  sender = zero_id;
  generation = 3;
  sequence_number = 70000;
  routes =
      record {
        destination = zero_address;
        destination_node = 5 ∷ replicate 31 0;
        next_hop = 6 ∷ replicate 31 0;
        metric = 2;
        last_update = 9;
      }
      ∷ [];
}

told_routes-IsAdvertisement : IsAdvertisement told_routes
told_routes-IsAdvertisement = record {
  sender = refl;
  generation = omega arith;
  sequence_number = omega arith;
  count = omega arith;
  routes = ((refl, refl, omega arith), tt);
}

deserialize_advertisement-serialize_example :
    deserialize_route_advertisement (serialize_route_advertisement told_routes)
    ≡ ok (record told_routes { routes = map learned told_routes.routes })
deserialize_advertisement-serialize_example =
    deserialize_advertisement-serialize told_routes told_routes-IsAdvertisement

hello_size : deserialize_hello_message (1 ∷ []) ≡ err bad_hello_size
unfolding deserialize_hello_message
hello_size = refl

abbrev neighbor : NodeContact
neighbor = record {
  id = 3 ∷ replicate 31 0;
  public_key = zero_id;
  virtual_address = zero_address;
  endpoint = 97 ∷ 98 ∷ [];
  last_seen_ms = 70000;
  rtt_ms = 12;
  failed_pings = 1;
}

neighbor-FitsWire : FitsWire neighbor
neighbor-FitsWire = record {
  id = refl;
  public_key = refl;
  virtual_address = refl;
  endpoint = omega arith;
  last_seen_ms = omega arith;
  rtt_ms = omega arith;
}

-- A response whose bootstrap contact has no id yet.
abbrev response : JoinResponse
response = record {
  accepted = true;
  bootstrap_contact = record neighbor { id = zero_id };
  bootstrap_id = 3 ∷ replicate 31 0;
  peers = neighbor ∷ neighbor ∷ [];
}

response_boots : boot_contact response ≡ neighbor
unfolding boot_contact
response_boots = refl

deserialize_response-serialize_example :
    deserialize_join_response (serialize_join_response response) ≡ ok (announced response)
deserialize_response-serialize_example =
    deserialize_response-serialize response (omega arith)
      (subst FitsWire (sym response_boots) neighbor-FitsWire)
      (neighbor-FitsWire, (neighbor-FitsWire, tt))

abbrev request : JoinRequest
request = record {
  node_id = 3 ∷ replicate 31 0;
  public_key = zero_id;
  virtual_address = zero_address;
  endpoint = 97 ∷ [];
  timestamp = 70000;
  nonce = 5;
  invite_token = 98 ∷ 99 ∷ [];
}

request-FitsRequest : FitsRequest request
request-FitsRequest = record {
  node_id = refl;
  public_key = refl;
  virtual_address = refl;
  endpoint = omega arith;
  timestamp = omega arith;
  nonce = omega arith;
  invite_token = omega arith;
}

request_read_back : deserialize_join_request (serialize_join_request request) ≡ ok request
request_read_back = deserialize_request-serialize request request-FitsRequest

-- One neighbour is told, and none is there.
no_neighbor : deserialize_neighbors (0 ∷ 1 ∷ []) ≡ err truncated_neighbors
unfolding deserialize_neighbors read_contacts read_u16_be
no_neighbor = refl

no_contact : deserialize_node_contact (0 ∷ 1 ∷ []) ≡ err short_contact
unfolding deserialize_node_contact
no_contact = refl
