-- ===== src/Join/Replies.antt =====
-- What the answers of the join protocol say, read as the node that asked reads them.
use madoka.Common.{
  ℕ, ◌≤◌, ◌≡◌, refl, ap, sym, ◌∙◌, subst, true, Bool, Option, none, some, arith, length,
  length-take,
}
use madoka.Bytes.{NodeId}
use madoka.Bytes.Slice.{ok}
use madoka.Control.{ControlMessage, control_message_create}
use madoka.Kademlia.{NodeContact, KademliaTable, kademlia_insert, kademlia_k, refresh}
use madoka.Kademlia.Closest.{gather, sort_by_distance, kademlia_find_closest}
use madoka.Kademlia.Nearest.{find_closest-take}
use madoka.Kademlia.Contents.{Everywhere, insert-Everywhere, find_closest-All}
use madoka.Wire.Contact.RoundTrip.{FitsWire}
use madoka.Wire.Join.{
  deserialize_join_request, serialize_join_request, boot_contact, serialize_join_response,
  deserialize_join_response, deserialize_find_node, serialize_find_node, serialize_neighbors,
  deserialize_neighbors,
}
use madoka.Wire.Join.RoundTrip.{
  FitsRequest, deserialize_request-serialize, deserialize_find_node-serialize,
  deserialize_neighbors-serialize, deserialize_response-serialize,
}
use madoka.Join.Message.{JoinRequest, JoinResponse, FindNodeMessage, NeighborsMessage}
use madoka.Join.{
  Digest, is_derived, answering_contact, requesting_contact, process_join_request, handle_find_node,
  reply_to, dispatch_join_request, dispatch_find_node, dispatch_join_protocol_message,
}

length-find_closest :
    (t : KademliaTable) (target : NodeId) (count : ℕ)
    → length (kademlia_find_closest t target count) ≤ count
length-find_closest t target count =
    rw (find_closest-take t target count)
      (omega (arith, length-take count (sort_by_distance target (gather t.buckets))))

dispatch_at_find_node :
    (digest : Digest) (t : KademliaTable) (m : ControlMessage) (l : Option NodeContact)
    (admitted : Bool)
    → m.type ≡ 6
    → dispatch_join_protocol_message digest t m true l admitted ≡ dispatch_find_node t m
unfolding dispatch_join_protocol_message
dispatch_at_find_node digest t m l admitted h = ground arith

dispatch_at_join_request :
    (digest : Digest) (t : KademliaTable) (m : ControlMessage) (l : Option NodeContact)
    → m.type ≡ 4
    → dispatch_join_protocol_message digest t m true l true ≡ dispatch_join_request digest t m l
unfolding dispatch_join_protocol_message
dispatch_at_join_request digest t m l h = ground arith

find_node-read :
    (t : KademliaTable) (m : ControlMessage) (req : FindNodeMessage)
    → deserialize_find_node m.payload ≡ ok req
    → dispatch_find_node t m ≡ (t, reply_to m t 7 (serialize_neighbors (handle_find_node t req)))
unfolding dispatch_find_node
find_node-read t m req e = rw (dispatch_find_node, e) refl

join_request-read :
    (digest : Digest) (t : KademliaTable) (m : ControlMessage) (l : Option NodeContact)
    (req : JoinRequest)
    → deserialize_join_request m.payload ≡ ok req
    → let r = process_join_request digest t req l in
      dispatch_join_request digest t m l ≡ (r.0, reply_to m r.0 5 (serialize_join_response r.1))
unfolding dispatch_join_request
join_request-read digest t m l req e = rw (dispatch_join_request, e) refl

-- The answer to a FIND_NODE message that has been read.
abbrev neighbors_of : KademliaTable → NodeId → NeighborsMessage
neighbors_of t target = record { peers = kademlia_find_closest t target kademlia_k }

-- A FIND_NODE message for a target of 32 bytes, to a node whose contacts fit the wire format, is
-- answered, and the table stays as it is: the answer is a NEIGHBORS message of the local node with
-- the sequence number of the request, and whoever reads its payload has the 20 contacts of the table
-- that are closest to the target, or all, if there are fewer.
pub find_node_answered :
    (digest : Digest) (t : KademliaTable) (m : ControlMessage) (target : NodeId)
    (l : Option NodeContact) (admitted : Bool)
    → m.type ≡ 6
    → m.payload ≡ serialize_find_node (record { target = target })
    → length target ≡ 32
    → Everywhere FitsWire t
    → (reply : ControlMessage) × (dispatch_join_protocol_message digest t m true l admitted
        ≡ (t, some reply))
      × (reply.type ≡ 7)
      × (reply.sequence_number ≡ m.sequence_number)
      × (reply.sender ≡ t.local_id)
      × (deserialize_neighbors reply.payload
          ≡ ok (record { peers = kademlia_find_closest t target kademlia_k }))
unfolding reply_to control_message_create handle_find_node
find_node_answered digest t m target l admitted h p size fits =
    let peers = neighbors_of t target in
    let read =
      ap deserialize_find_node p
      ∙ deserialize_find_node-serialize (record { target = target }) size in
    (
      control_message_create 7 m.sequence_number t.local_id (serialize_neighbors peers),
      dispatch_at_find_node digest t m l admitted h
          ∙ find_node-read t m (record { target = target }) read,
      refl,
      refl,
      refl,
      deserialize_neighbors-serialize peers (length-find_closest t target kademlia_k)
          (find_closest-All FitsWire t target kademlia_k fits),
    )

refresh-FitsWire : (c old : NodeContact) → FitsWire c → FitsWire old → FitsWire (refresh c old)
refresh-FitsWire c old f g = record {
  id = g.id;
  public_key = f.public_key;
  virtual_address = f.virtual_address;
  endpoint = ground (arith, f.endpoint, g.endpoint);
  last_seen_ms = f.last_seen_ms;
  rtt_ms = f.rtt_ms;
}

requesting-FitsWire : (r : JoinRequest) → FitsRequest r → FitsWire (requesting_contact r)
requesting-FitsWire r f = record {
  id = f.node_id;
  public_key = f.public_key;
  virtual_address = f.virtual_address;
  endpoint = f.endpoint;
  last_seen_ms = f.timestamp;
  rtt_ms = omega arith;
}

-- The response to a request that is taken.
abbrev welcome : KademliaTable → NodeContact → NodeId → JoinResponse
welcome t boot id = record {
  accepted = true;
  bootstrap_contact = boot;
  bootstrap_id = boot.id;
  peers = kademlia_find_closest t id kademlia_k;
}

process_derived :
    (digest : Digest) (t : KademliaTable) (r : JoinRequest) (l : Option NodeContact)
    → is_derived digest r.public_key r.node_id ≡ true
    → let inserted = (kademlia_insert t (requesting_contact r) none).0 in
      process_join_request digest t r l
      ≡ (inserted, welcome inserted (answering_contact t l) r.node_id, true)
unfolding process_join_request
process_derived digest t r l e = rw e refl

boot_contact-welcome :
    (t : KademliaTable) (boot : NodeContact) (id : NodeId) → boot_contact (welcome t boot id) ≡ boot
unfolding boot_contact
boot_contact-welcome t boot id = ground arith

-- An admitted join request whose id is the digest of its public key is answered, where the request,
-- the contacts of the table and the answering contact fit the wire format. The table is the one with
-- the requesting contact inserted. The answer is a JOIN_RESPONSE of the local node with the sequence
-- number of the request; whoever reads its payload is accepted, and has the answering contact and the
-- 20 contacts of the new table that are closest to the id of the request, or all, if there are fewer.
pub join_answered :
    (digest : Digest) (t : KademliaTable) (m : ControlMessage) (r : JoinRequest)
    (l : Option NodeContact)
    → m.type ≡ 4
    → m.payload ≡ serialize_join_request r
    → FitsRequest r
    → is_derived digest r.public_key r.node_id ≡ true
    → Everywhere FitsWire t
    → FitsWire (answering_contact t l)
    → let inserted = (kademlia_insert t (requesting_contact r) none).0 in
      let boot = answering_contact t l in
      (reply : ControlMessage) × (dispatch_join_protocol_message digest t m true l true
        ≡ (inserted, some reply))
      × (reply.type ≡ 5)
      × (reply.sequence_number ≡ m.sequence_number)
      × (reply.sender ≡ inserted.local_id)
      × (deserialize_join_response reply.payload
          ≡ ok (record {
            accepted = true;
            bootstrap_contact = boot;
            bootstrap_id = boot.id;
            peers = kademlia_find_closest inserted r.node_id kademlia_k;
          }))
unfolding reply_to control_message_create
join_answered digest t m r l h p size derived fits boot_fits =
    let inserted = (kademlia_insert t (requesting_contact r) none).0 in
    let boot = answering_contact t l in
    let resp = welcome inserted boot r.node_id in
    let all : Everywhere FitsWire inserted =
      insert-Everywhere FitsWire t (requesting_contact r) none (requesting-FitsWire r size)
        (λ old _ g. refresh-FitsWire (requesting_contact r) old (requesting-FitsWire r size) g)
        fits in
    let read = ap deserialize_join_request p ∙ deserialize_request-serialize r size in
    let same = boot_contact-welcome inserted boot r.node_id in
    (
      control_message_create 5 m.sequence_number inserted.local_id (serialize_join_response resp),
      dispatch_at_join_request digest t m l h
          ∙ join_request-read digest t m l r read
          ∙ ap
              (λ (q : KademliaTable × JoinResponse × Bool).
                (q.0, reply_to m q.0 5 (serialize_join_response q.1)))
              (process_derived digest t r l derived),
      refl,
      refl,
      refl,
      subst
          (λ c.
            deserialize_join_response (serialize_join_response resp)
            ≡ ok (record resp { bootstrap_contact = c; bootstrap_id = c.id }))
          same
          (deserialize_response-serialize resp (length-find_closest inserted r.node_id kademlia_k)
            (subst FitsWire (sym same) boot_fits)
            (find_closest-All FitsWire inserted r.node_id kademlia_k all)),
    )
