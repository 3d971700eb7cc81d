-- ===== src/Wire/Contact.antt =====
-- The wire format of contacts and of lists of contacts, in src/network/serialization.cpp.
pub mod RoundTrip
use madoka.Common.{
  ℕ, zero, suc, ◌+◌, ◌%◌, ◌^◌, Bool, true, false, ◌||◌, List, [], ◌∷◌, ◌++◌, length, ltb, leb,
  if◌then◌else◌, not,
}
use madoka.Bytes.Slice.{Result, ok, err, fault, ◌>>=◌, ◌>>◌, check, byte_at, slice, subspan}
use madoka.Bytes.Words.{
  write_u16_be, write_u32_be, write_u64_be, read_u16_be, read_u32_be, read_u64_be,
}
use madoka.Kademlia.{NodeContact}

abbrev pub max_contact_endpoint_size : ℕ
max_contact_endpoint_size = 255

-- `MIN_SIZE` of `deserialize_node_contact`
abbrev pub min_contact_size : ℕ
min_contact_size = 32 + 32 + 16 + 2 + 8 + 4 + 1

-- The messages written to `*error` by the readers of contacts and of join messages.
pub data JoinWireError : Type 0 where
  short_contact incomplete_contact : JoinWireError
  short_join_request bad_join_endpoint join_request_mismatch : JoinWireError
  empty_join_response short_peer_count join_peers_over_limit truncated_join_peers : JoinWireError
  extraneous_join_data bad_find_node_size : JoinWireError
  short_neighbors neighbors_over_limit truncated_neighbors extraneous_neighbors : JoinWireError
  short_announce announce_contact_mismatch bad_announce_ack_size : JoinWireError

unfoldable pub serialize_node_contact : NodeContact → List ℕ
unfolding write_u16_be write_u64_be write_u32_be
serialize_node_contact c =
    if ltb max_contact_endpoint_size (length c.endpoint)
    then []
    else c.id
      ++ (c.public_key
          ++ (c.virtual_address
              ++ (write_u16_be (length c.endpoint % 2 ^ 16)
                  ++ (c.endpoint
                      ++ (write_u64_be c.last_seen_ms
                          ++ (write_u32_be c.rtt_ms ++ (c.failed_pings ∷ [])))))))

-- The contact, and `*out_consumed`.
unfoldable pub deserialize_node_contact : List ℕ → Result JoinWireError (NodeContact × ℕ)
deserialize_node_contact d = do
  check (not (ltb (length d) min_contact_size)) short_contact
  ep_len ← read_u16_be d 80
  check (not (ltb max_contact_endpoint_size ep_len || ltb (length d) (min_contact_size + ep_len)))
      incomplete_contact
  id ← slice d 0 32
  public_key ← slice d 32 32
  virtual_address ← slice d 64 16
  endpoint ← slice d 82 ep_len
  last_seen_ms ← read_u64_be d (82 + ep_len)
  rtt_ms ← read_u32_be d (82 + ep_len + 8)
  failed_pings ← byte_at d (82 + ep_len + 8 + 4)
  ok (
    record {
      id = id;
      public_key = public_key;
      virtual_address = virtual_address;
      endpoint = endpoint;
      last_seen_ms = last_seen_ms;
      rtt_ms = rtt_ms;
      failed_pings = failed_pings;
    },
    min_contact_size + ep_len,
  )

-- The loop over the peers of `serialize_join_response` and `serialize_neighbors`: `{}` where a
-- contact cannot be written.
unfoldable pub append_contacts : List ℕ → List NodeContact → List ℕ
append_contacts buf [] = buf
append_contacts buf (peer ∷ peers) = elim (serialize_node_contact peer) [
  | [] ↦ []
  | b ∷ bytes ↦ append_contacts (buf ++ b ∷ bytes) peers
]

-- The loop over `count` contacts of the two readers, from `offset` on: the contacts, and the offset
-- behind them.
unfoldable pub read_contacts :
    JoinWireError → ℕ → List ℕ → ℕ → Result JoinWireError (List NodeContact × ℕ)
read_contacts truncated zero d offset = ok ([], offset)
read_contacts truncated (suc n) d offset = do
  check (not (leb (length d) offset)) truncated
  span ← subspan d offset
  (contact, consumed) ← deserialize_node_contact span
  (peers, end) ← read_contacts truncated n d (offset + consumed)
  ok (contact ∷ peers, end)
