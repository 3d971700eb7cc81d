-- ===== src/Wire/Join.antt =====
-- The wire formats of the join protocol, in src/network/serialization.cpp.
pub mod RoundTrip
use madoka.Common.{
  ℕ, ◌+◌, ◌-◌, ◌%◌, ◌^◌, Bool, true, false, ◌||◌, List, [], ◌∷◌, ◌++◌, length, ltb, leb, ◌==◌,
  if◌then◌else◌, not,
}
use madoka.Bytes.{bytes_eq, zero_id}
use madoka.Bytes.Slice.{Result, ok, err, fault, ◌>>=◌, ◌>>◌, check, byte_at, slice, subspan}
use madoka.Bytes.Words.{write_u16_be, write_u64_be, read_u16_be, read_u64_be}
use madoka.Packet.Serial.{bool_byte}
use madoka.Kademlia.{NodeContact, kademlia_k}
use madoka.Join.Message.{
  JoinRequest, JoinResponse, FindNodeMessage, NeighborsMessage, NodeAnnounceMessage,
  NodeAnnounceAck,
}
use madoka.Wire.Contact.{
  JoinWireError, short_join_request, bad_join_endpoint, join_request_mismatch, empty_join_response,
  short_peer_count, join_peers_over_limit, truncated_join_peers, extraneous_join_data,
  bad_find_node_size, short_neighbors, neighbors_over_limit, truncated_neighbors,
  extraneous_neighbors, short_announce, announce_contact_mismatch, bad_announce_ack_size,
  serialize_node_contact, deserialize_node_contact, append_contacts, read_contacts,
}

-- `MIN_SIZE` of `deserialize_join_request`
abbrev pub min_join_request_size : ℕ
min_join_request_size = 32 + 32 + 16 + 2 + 8 + 8 + 2

abbrev pub find_node_wire_size : ℕ
find_node_wire_size = 32

abbrev pub node_announce_ack_wire_size : ℕ
node_announce_ack_wire_size = 33

unfoldable pub serialize_join_request : JoinRequest → List ℕ
unfolding write_u16_be write_u64_be
serialize_join_request req =
    if ltb 255 (length req.endpoint) || ltb 512 (length req.invite_token)
    then []
    else req.node_id
      ++ (req.public_key
          ++ (req.virtual_address
              ++ (write_u16_be (length req.endpoint % 2 ^ 16)
                  ++ (req.endpoint
                      ++ (write_u64_be req.timestamp
                          ++ (write_u64_be req.nonce
                              ++ (write_u16_be (length req.invite_token % 2 ^ 16)
                                  ++ req.invite_token)))))))

unfoldable pub deserialize_join_request : List ℕ → Result JoinWireError JoinRequest
deserialize_join_request d = do
  check (not (ltb (length d) min_join_request_size)) short_join_request
  ep_len ← read_u16_be d 80
  check (not (ltb 255 ep_len || ltb (length d) (min_join_request_size + ep_len))) bad_join_endpoint
  token_len ← read_u16_be d (82 + ep_len + 8 + 8)
  check (not (ltb 512 token_len || not (length d == min_join_request_size + ep_len + token_len)))
      join_request_mismatch
  node_id ← slice d 0 32
  public_key ← slice d 32 32
  virtual_address ← slice d 64 16
  endpoint ← slice d 82 ep_len
  timestamp ← read_u64_be d (82 + ep_len)
  nonce ← read_u64_be d (82 + ep_len + 8)
  invite_token ← slice d (82 + ep_len + 8 + 8 + 2) token_len
  ok (record {
    node_id = node_id;
    public_key = public_key;
    virtual_address = virtual_address;
    endpoint = endpoint;
    timestamp = timestamp;
    nonce = nonce;
    invite_token = invite_token;
  })

-- `boot` of `serialize_join_response`: the bootstrap contact under the bootstrap id, where its own id
-- is zero.
unfoldable pub boot_contact : JoinResponse → NodeContact
unfolding bytes_eq
boot_contact resp =
    if bytes_eq resp.bootstrap_contact.id zero_id
    then record resp.bootstrap_contact { id = resp.bootstrap_id }
    else resp.bootstrap_contact

unfoldable pub serialize_join_response : JoinResponse → List ℕ
unfolding boot_contact serialize_node_contact append_contacts write_u16_be
serialize_join_response resp =
    if ltb kademlia_k (length resp.peers)
    then []
    else elim (serialize_node_contact (boot_contact resp)) [
      | [] ↦ []
      | b ∷ boot_bytes ↦
          append_contacts
            (bool_byte resp.accepted ∷ (b ∷ boot_bytes)
              ++ write_u16_be (length resp.peers % 2 ^ 16))
            resp.peers
    ]

unfoldable pub deserialize_join_response : List ℕ → Result JoinWireError JoinResponse
deserialize_join_response d = do
  check (not (length d == 0)) empty_join_response
  accepted ← byte_at d 0
  span ← subspan d 1
  (bootstrap_contact, boot_consumed) ← deserialize_node_contact span
  check (not (ltb (length d) (1 + boot_consumed + 2))) short_peer_count
  count ← read_u16_be d (1 + boot_consumed)
  check (not (ltb kademlia_k count)) join_peers_over_limit
  (peers, offset) ← read_contacts truncated_join_peers count d (1 + boot_consumed + 2)
  check (offset == length d) extraneous_join_data
  ok (record {
    accepted = not (accepted == 0);
    bootstrap_contact = bootstrap_contact;
    bootstrap_id = bootstrap_contact.id;
    peers = peers;
  })

unfoldable pub serialize_find_node : FindNodeMessage → List ℕ
serialize_find_node msg = msg.target

unfoldable pub deserialize_find_node : List ℕ → Result JoinWireError FindNodeMessage
deserialize_find_node d = do
  check (length d == find_node_wire_size) bad_find_node_size
  target ← slice d 0 32
  ok (record { target = target })

unfoldable pub serialize_neighbors : NeighborsMessage → List ℕ
unfolding append_contacts write_u16_be
serialize_neighbors msg =
    if ltb kademlia_k (length msg.peers)
    then []
    else append_contacts (write_u16_be (length msg.peers % 2 ^ 16)) msg.peers

unfoldable pub deserialize_neighbors : List ℕ → Result JoinWireError NeighborsMessage
deserialize_neighbors d = do
  check (not (ltb (length d) 2)) short_neighbors
  count ← read_u16_be d 0
  check (not (ltb kademlia_k count)) neighbors_over_limit
  (peers, offset) ← read_contacts truncated_neighbors count d 2
  check (offset == length d) extraneous_neighbors
  ok (record { peers = peers })

unfoldable pub serialize_node_announce : NodeAnnounceMessage → List ℕ
unfolding serialize_node_contact write_u64_be
serialize_node_announce msg = serialize_node_contact msg.contact ++ write_u64_be msg.nonce

unfoldable pub deserialize_node_announce : List ℕ → Result JoinWireError NodeAnnounceMessage
deserialize_node_announce d = do
  check (not (ltb (length d) 8)) short_announce
  contact_slice ← slice d 0 (length d - 8)
  (contact, consumed) ← deserialize_node_contact contact_slice
  check (consumed == length contact_slice) announce_contact_mismatch
  nonce ← read_u64_be d (length d - 8)
  ok (record { contact = contact; nonce = nonce })

unfoldable pub serialize_node_announce_ack : NodeAnnounceAck → List ℕ
serialize_node_announce_ack msg = bool_byte msg.accepted ∷ msg.responder

unfoldable pub deserialize_node_announce_ack : List ℕ → Result JoinWireError NodeAnnounceAck
deserialize_node_announce_ack d = do
  check (length d == node_announce_ack_wire_size) bad_announce_ack_size
  accepted ← byte_at d 0
  responder ← slice d 1 32
  ok (record { accepted = not (accepted == 0); responder = responder })
