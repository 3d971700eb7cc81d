-- ===== src/Join/Invariant.antt =====
-- What every message of the join protocol keeps of the table of contacts.
use madoka.Common.{
  ◌≡◌, refl, ◌⊎◌, true, Bool, List, [], ◌∷◌, Option, none, arith, inl, inr, All, Bool-cases,
}
use madoka.Bytes.Slice.{Result, ok, err, fault}
use madoka.Control.{ControlMessage}
use madoka.Kademlia.{NodeContact, KademliaTable, kademlia_insert}
use madoka.Kademlia.Invariant.{IsTable, insert-IsTable}
use madoka.Join.Message.{JoinRequest, JoinResponse, NodeAnnounceMessage}
use madoka.Wire.Contact.{JoinWireError}
use madoka.Wire.Join.{deserialize_join_request, deserialize_find_node, deserialize_node_announce}
use madoka.Join.{
  Digest, is_derived, process_join_request, requesting_contact, offer_contact, offer_contacts,
  actual_boot, handle_join_response, handle_node_announce, dispatch_join_request,
  dispatch_find_node, dispatch_node_announce, dispatch_join_protocol_message,
}

-- A message that has been read, or not.
Result-cases :
    {A : Type 0} (r : Result JoinWireError A)
    → ((a : A) × (r ≡ ok a)) ⊎ ((e : JoinWireError) × (r ≡ err e)) ⊎ (r ≡ fault)
Result-cases (ok a) = inl (a, refl)
Result-cases (err e) = inr (inl (e, refl))
Result-cases fault = inr (inr refl)

pub All-Unit : (cs : List NodeContact) → All (λ _. Unit {0}) cs
All-Unit [] = tt
All-Unit (c ∷ cs) = (tt, All-Unit cs)

-- A property of tables that inserting certain contacts keeps.
module _ (P : KademliaTable → Type 0) (Q : NodeContact → Type 0)
    (keep : (t : KademliaTable) (c : NodeContact)
      → Q c
      → P t
      → P (kademlia_insert t c none).0) where
  pub offer_contact-Keeps :
      (t : KademliaTable) (c : NodeContact) → Q c → P t → P (offer_contact t c)
  unfolding offer_contact
  offer_contact-Keeps t c q v = ground (arith, keep t c q v)

  pub offer_contacts-Keeps :
      (t : KademliaTable) (cs : List NodeContact) → All Q cs → P t → P (offer_contacts t cs)
  unfolding offer_contacts
  offer_contacts-Keeps t [] q v = v
  offer_contacts-Keeps t (c ∷ cs) q v =
      offer_contacts-Keeps (offer_contact t c) cs q.1 (offer_contact-Keeps t c q.0 v)

  pub handle_join_response-Keeps :
      (t : KademliaTable) (r : JoinResponse) (fallback : NodeContact)
      → Q (actual_boot r fallback)
      → All Q r.peers
      → P t
      → P (handle_join_response t r fallback).0
  unfolding handle_join_response
  handle_join_response-Keeps t r fallback q qs v =
      let boot = actual_boot r fallback in
      ground (
        arith,
        offer_contacts-Keeps t r.peers qs v,
        offer_contacts-Keeps (kademlia_insert t boot none).0 r.peers qs (keep t boot q v),
      )

-- A property of tables that inserting a contact keeps when its id is the digest of its public key.
module _ (digest : Digest) (P : KademliaTable → Type 0)
    (keep : (t : KademliaTable) (c : NodeContact)
      → is_derived digest c.public_key c.id ≡ true
      → P t
      → P (kademlia_insert t c none).0) where
  process-Keeps :
      (t : KademliaTable) (r : JoinRequest) (l : Option NodeContact)
      → P t
      → P (process_join_request digest t r l).0
  unfolding process_join_request
  process-Keeps t r l v = elim (Bool-cases (is_derived digest r.public_key r.node_id)) [
    | inl q ↦ rw (process_join_request, q) (keep t (requesting_contact r) q v)
    | inr q ↦ rw (process_join_request, q) v
  ]

  announce-Keeps :
      (t : KademliaTable) (a : NodeAnnounceMessage) → P t → P (handle_node_announce digest t a).0
  unfolding handle_node_announce
  announce-Keeps t a v =
      let derived = is_derived digest a.contact.public_key a.contact.id in
      elim (Bool-cases derived) [
        | inl q ↦
            rw (handle_node_announce, q)
              (offer_contact-Keeps P (λ c. is_derived digest c.public_key c.id ≡ true) keep t
                a.contact q v)
        | inr q ↦ rw (handle_node_announce, q) v
      ]

  dispatch_join_request-Keeps :
      (t : KademliaTable) (m : ControlMessage) (l : Option NodeContact)
      → P t
      → P (dispatch_join_request digest t m l).0
  unfolding dispatch_join_request
  dispatch_join_request-Keeps t m l v = elim (Result-cases (deserialize_join_request m.payload)) [
    | inl (r, e) ↦ rw (dispatch_join_request, e) (process-Keeps t r l v)
    | inr (inl (x, e)) ↦ rw (dispatch_join_request, e) v
    | inr (inr e) ↦ rw (dispatch_join_request, e) v
  ]

  dispatch_announce-Keeps :
      (t : KademliaTable) (m : ControlMessage) → P t → P (dispatch_node_announce digest t m).0
  unfolding dispatch_node_announce
  dispatch_announce-Keeps t m v = elim (Result-cases (deserialize_node_announce m.payload)) [
    | inl (a, e) ↦ rw (dispatch_node_announce, e) (announce-Keeps t a v)
    | inr (inl (x, e)) ↦ rw (dispatch_node_announce, e) v
    | inr (inr e) ↦ rw (dispatch_node_announce, e) v
  ]

  dispatch_find_node-Keeps :
      (t : KademliaTable) (m : ControlMessage) → P t → P (dispatch_find_node t m).0
  unfolding dispatch_find_node
  dispatch_find_node-Keeps t m v = elim (Result-cases (deserialize_find_node m.payload)) [
    | inl (a, e) ↦ rw (dispatch_find_node, e) v
    | inr (inl (x, e)) ↦ rw (dispatch_find_node, e) v
    | inr (inr e) ↦ rw (dispatch_find_node, e) v
  ]

  pub dispatch-Keeps :
      (t : KademliaTable) (m : ControlMessage) (out_reply : Bool) (l : Option NodeContact)
      (admitted : Bool)
      → P t
      → P (dispatch_join_protocol_message digest t m out_reply l admitted).0
  unfolding dispatch_join_protocol_message
  dispatch-Keeps t m out_reply l admitted v = ground (
    arith,
    v,
    dispatch_join_request-Keeps t m l v,
    dispatch_announce-Keeps t m v,
    dispatch_find_node-Keeps t m v,
  )

-- A well-formed table stays well-formed when a join response is handled, whatever it brings.
pub handle_join_response-IsTable :
    (t : KademliaTable) (r : JoinResponse) (fallback : NodeContact)
    → IsTable t
    → IsTable (handle_join_response t r fallback).0
handle_join_response-IsTable t r fallback v =
    handle_join_response-Keeps IsTable (λ _. Unit) (λ t c _. insert-IsTable t c none) t r fallback
      tt (All-Unit r.peers) v

-- A well-formed table stays well-formed when a message of the join protocol is dispatched, whatever
-- its type and payload.
pub dispatch-IsTable :
    (digest : Digest) (t : KademliaTable) (m : ControlMessage) (out_reply : Bool)
    (l : Option NodeContact) (admitted : Bool)
    → IsTable t
    → IsTable (dispatch_join_protocol_message digest t m out_reply l admitted).0
dispatch-IsTable digest t m out_reply l admitted v =
    dispatch-Keeps digest IsTable (λ t c _. insert-IsTable t c none) t m out_reply l admitted v
