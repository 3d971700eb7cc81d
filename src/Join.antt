-- ===== src/Join.antt =====
-- include/network/join.hpp and src/network/join.cpp: how a node joins the network, and how it fills
-- its table of contacts. SHA-256, which is a library's, is the parameter `digest`: the bytes that
-- `EVP_Q_digest` writes, `none` where it fails. Where the source changes its argument `table`, the
-- new table is returned; an output pointer that is null is not modelled but for `out_reply`.
pub mod Message
pub mod SelfLookup
pub mod Invariant
pub mod Authentic
pub mod Replies
mod Tests
use madoka.Common.{
  ℕ, zero, suc, ◌+◌, Bool, true, false, ◌&&◌, List, [], ◌∷◌, ◌++◌, Option, none, some, length, leb,
  ◌==◌, if◌then◌else◌, any_of, not,
}
use madoka.Bytes.{NodeId, bytes_eq, zero_id, zero_address}
use madoka.Bytes.Slice.{ok, err, fault}
use madoka.Control.{ControlMessage, control_message_create}
use madoka.Kademlia.{NodeContact, KademliaTable, kademlia_insert, kademlia_k}
use madoka.Kademlia.Closest.{kademlia_find_closest}
use madoka.Join.Message.{
  JoinRequest, JoinResponse, FindNodeMessage, NeighborsMessage, NodeAnnounceMessage,
  NodeAnnounceAck,
}
use madoka.Wire.Join.{
  deserialize_join_request, serialize_join_response, deserialize_find_node, serialize_neighbors,
  deserialize_node_announce, serialize_node_announce_ack,
}

-- `EVP_Q_digest`
abbrev pub Digest : Type 0
Digest = List ℕ → Option (List ℕ)

-- The test that an id is the digest of a public key.
unfoldable pub is_derived : Digest → (public_key : List ℕ) → NodeId → Bool
unfolding bytes_eq
is_derived digest public_key id = elim (digest public_key) [
  | none ↦ false
  | some derived_id ↦ length derived_id == 32 && bytes_eq derived_id id
]

-- `NodeContact{.id = id}`
abbrev pub bare_contact : NodeId → NodeContact
bare_contact id = record {
  id = id;
  public_key = zero_id;
  virtual_address = zero_address;
  endpoint = [];
  last_seen_ms = 0;
  rtt_ms = 0;
  failed_pings = 0;
}

-- The contact that a response names: the local one, where there is one.
abbrev pub answering_contact : KademliaTable → Option NodeContact → NodeContact
answering_contact table none = bare_contact table.local_id
answering_contact table (some contact) = contact

-- The contact that a join request is about.
abbrev pub requesting_contact : JoinRequest → NodeContact
requesting_contact request = record {
  id = request.node_id;
  public_key = request.public_key;
  virtual_address = request.virtual_address;
  endpoint = request.endpoint;
  last_seen_ms = request.timestamp;
  rtt_ms = 0;
  failed_pings = 0;
}

unfoldable pub process_join_request :
    Digest → KademliaTable → JoinRequest → Option NodeContact → KademliaTable × JoinResponse × Bool
unfolding is_derived kademlia_insert kademlia_find_closest
process_join_request digest table request local_contact =
    let boot = answering_contact table local_contact in
    let inserted = (kademlia_insert table (requesting_contact request) none).0 in
    if not (is_derived digest request.public_key request.node_id)
    then (
      table,
      record { accepted = false; bootstrap_contact = boot; bootstrap_id = boot.id; peers = [] },
      false,
    )
    else (
      inserted,
      record {
        accepted = true;
        bootstrap_contact = boot;
        bootstrap_id = boot.id;
        peers = kademlia_find_closest inserted request.node_id kademlia_k;
      },
      true,
    )

-- A contact that is not the local node is offered to the table.
unfoldable pub offer_contact : KademliaTable → NodeContact → KademliaTable
unfolding bytes_eq kademlia_insert
offer_contact table peer =
    if not (bytes_eq peer.id table.local_id) then (kademlia_insert table peer none).0 else table

-- The loop over the contacts that a message brings.
unfoldable pub offer_contacts : KademliaTable → List NodeContact → KademliaTable
unfolding offer_contact
offer_contacts table [] = table
offer_contacts table (peer ∷ peers) = offer_contacts (offer_contact table peer) peers

-- `actual_boot` of `handle_join_response`: what the response leaves empty is taken from the contact
-- that was asked.
unfoldable pub actual_boot : JoinResponse → NodeContact → NodeContact
unfolding bytes_eq
actual_boot response fallback =
    let boot = response.bootstrap_contact in
    record boot {
      id = if bytes_eq boot.id zero_id then response.bootstrap_id else boot.id;
      endpoint =
          if length boot.endpoint == 0 && not (length fallback.endpoint == 0)
          then fallback.endpoint
          else boot.endpoint;
      public_key =
          if bytes_eq boot.public_key zero_id && not (bytes_eq fallback.public_key zero_id)
          then fallback.public_key
          else boot.public_key;
      virtual_address =
          if bytes_eq boot.virtual_address zero_address
            && not (bytes_eq fallback.virtual_address zero_address)
          then fallback.virtual_address
          else boot.virtual_address;
    }

unfoldable pub handle_join_response :
    KademliaTable → JoinResponse → NodeContact → KademliaTable × Bool
unfolding bytes_eq actual_boot kademlia_insert offer_contacts
handle_join_response table response bootstrap_fallback =
    let boot = actual_boot response bootstrap_fallback in
    let booted =
      if not (bytes_eq boot.id zero_id) && not (bytes_eq boot.id table.local_id)
      then (kademlia_insert table boot none).0
      else table in
    if not response.accepted then (table, false) else (offer_contacts booted response.peers, true)

unfoldable pub handle_find_node : KademliaTable → FindNodeMessage → NeighborsMessage
unfolding kademlia_find_closest
handle_find_node table request = record {
  peers = kademlia_find_closest table request.target kademlia_k;
}

unfoldable pub handle_neighbors : KademliaTable → NeighborsMessage → KademliaTable
unfolding offer_contacts
handle_neighbors table message = offer_contacts table message.peers

unfoldable pub handle_node_announce :
    Digest → KademliaTable → NodeAnnounceMessage → KademliaTable × NodeAnnounceAck × Bool
unfolding is_derived offer_contact
handle_node_announce digest table announce =
    if not (is_derived digest announce.contact.public_key announce.contact.id)
    then (table, record { accepted = false; responder = table.local_id }, false)
    else (
      offer_contact table announce.contact,
      record { accepted = true; responder = table.local_id },
      true,
    )

-- `*out_reply`: an answer of the local node, with the sequence number of the request.
unfoldable pub reply_to : ControlMessage → KademliaTable → ℕ → List ℕ → Option ControlMessage
unfolding control_message_create
reply_to incoming table type payload =
    some (control_message_create type incoming.sequence_number table.local_id payload)

-- The three cases of the `switch` that answer.
unfoldable pub dispatch_join_request :
    Digest
    → KademliaTable
    → ControlMessage
    → Option NodeContact
    → KademliaTable × Option ControlMessage
unfolding deserialize_join_request process_join_request serialize_join_response reply_to
dispatch_join_request digest table incoming local_contact =
    elim (deserialize_join_request incoming.payload) [
      | ok req ↦
          let r = process_join_request digest table req local_contact in
          (r.0, reply_to incoming r.0 5 (serialize_join_response r.1))
      | _ ↦ (table, none)
    ]

unfoldable pub dispatch_find_node :
    KademliaTable → ControlMessage → KademliaTable × Option ControlMessage
unfolding deserialize_find_node handle_find_node serialize_neighbors reply_to
dispatch_find_node table incoming = elim (deserialize_find_node incoming.payload) [
  | ok req ↦ (table, reply_to incoming table 7 (serialize_neighbors (handle_find_node table req)))
  | _ ↦ (table, none)
]

unfoldable pub dispatch_node_announce :
    Digest → KademliaTable → ControlMessage → KademliaTable × Option ControlMessage
unfolding deserialize_node_announce handle_node_announce serialize_node_announce_ack reply_to
dispatch_node_announce digest table incoming = elim (deserialize_node_announce incoming.payload) [
  | ok req ↦
      let r = handle_node_announce digest table req in
      (r.0, reply_to incoming r.0 9 (serialize_node_announce_ack r.1))
  | _ ↦ (table, none)
]

-- The table, and `*out_reply` where the source returns true. `out_reply` is whether it is not null.
unfoldable pub dispatch_join_protocol_message :
    Digest
    → KademliaTable
    → ControlMessage
    → (out_reply : Bool) (local_contact : Option NodeContact) (join_admitted : Bool)
    → KademliaTable × Option ControlMessage
unfolding dispatch_join_request dispatch_find_node dispatch_node_announce
dispatch_join_protocol_message digest table incoming out_reply local_contact join_admitted =
    if not out_reply
    then (table, none)
    else if incoming.type == 4
    then if not join_admitted
      then (table, none)
      else dispatch_join_request digest table incoming local_contact
    else if incoming.type == 6
    then dispatch_find_node table incoming
    else if incoming.type == 8
    then dispatch_node_announce digest table incoming
    else (table, none)
