-- ===== src/Join/Message.antt =====
-- The structures of include/network/join.hpp. A `std::string` is its bytes.
use madoka.Common.{ℕ, Bool, List}
use madoka.Bytes.{NodeId, IPv6}
use madoka.Kademlia.{NodeContact}

pub record JoinRequest : Type 0 where
  pub node_id : NodeId
  pub public_key : List ℕ
  pub virtual_address : IPv6
  pub endpoint : List ℕ
  pub timestamp : ℕ
  pub nonce : ℕ
  pub invite_token : List ℕ

pub record JoinResponse : Type 0 where
  pub accepted : Bool
  pub bootstrap_contact : NodeContact
  pub bootstrap_id : NodeId
  pub peers : List NodeContact

pub record FindNodeMessage : Type 0 where
  pub target : NodeId

pub record NeighborsMessage : Type 0 where
  pub peers : List NodeContact

pub record NodeAnnounceMessage : Type 0 where
  pub contact : NodeContact
  pub nonce : ℕ

pub record NodeAnnounceAck : Type 0 where
  pub accepted : Bool
  pub responder : NodeId
