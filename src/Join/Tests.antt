-- ===== src/Join/Tests.antt =====
-- Concrete nodes that join a network, and the theorems on them.
use madoka.Common.{
  ◌⊎◌, ℕ, zero, suc, ◌+◌, ◌*◌, ◌≤◌, ◌≡◌, refl, true, false, [], ◌∷◌, none, some, arith, length,
  replicate, All,
}
use madoka.Bytes.{NodeId, zero_address, bytes_eq}
use madoka.Bytes.Slice.{ok}
use madoka.Control.{ControlMessage}
use madoka.Kademlia.{NodeContact, KBucket, KademliaTable, kademlia_insert}
use madoka.Kademlia.Closest.{kademlia_find_closest}
use madoka.Kademlia.Contents.{Everywhere}
use madoka.Kademlia.Invariant.{IsTable, AreBuckets, empty-IsBucket, insert-IsTable}
use madoka.Wire.Contact.RoundTrip.{FitsWire}
use madoka.Wire.Join.{
  serialize_join_request, deserialize_join_response, serialize_find_node, deserialize_neighbors,
}
use madoka.Wire.Join.RoundTrip.{FitsRequest}
use madoka.Join.Message.{JoinRequest}
use madoka.Join.{
  Digest, is_derived, requesting_contact, bare_contact, dispatch_join_protocol_message,
}
use madoka.Join.SelfLookup.{Query, Lookup, lookup_rounds, kademlia_self_lookup}
use madoka.Join.SelfLookup.Calls.{times_asked}
use madoka.Join.SelfLookup.Rounds.{Rounds, self_lookup_lem}
use madoka.Join.Invariant.{dispatch-IsTable}
use madoka.Join.Authentic.{IsAuthentic, dispatch-IsAuthentic}
use madoka.Join.Replies.{find_node_answered, join_answered}

abbrev id_here : NodeId
id_here = 1 ∷ replicate 31 0

abbrev id_joining : NodeId
id_joining = 2 ∷ replicate 31 0

abbrev empty_table : KademliaTable
empty_table = record { local_id = id_here; buckets = replicate 256 [] }

replicate-AreBuckets : (n i : ℕ) → AreBuckets id_here i (replicate n [])
replicate-AreBuckets zero i = tt
replicate-AreBuckets (suc n) i = (empty-IsBucket id_here i, replicate-AreBuckets n (i + 1))

length-replicate : (n : ℕ) → length (replicate {A = KBucket} n []) ≡ n
length-replicate zero = refl
length-replicate (suc n) = omega (arith, length-replicate n)

empty_table-IsTable : IsTable empty_table
empty_table-IsTable = record { size = length-replicate 256; buckets = replicate-AreBuckets 256 0 }

replicate-Everywhere : (P : NodeContact → Type 0) (n : ℕ) → All (All P) (replicate n [])
replicate-Everywhere P zero = tt
replicate-Everywhere P (suc n) = (tt, replicate-Everywhere P n)

-- A digest of 32 bytes that is the key itself.
abbrev same_digest : Digest
same_digest key = some key

abbrev joining : JoinRequest
joining = record {
  node_id = id_joining;
  public_key = id_joining;
  virtual_address = zero_address;
  endpoint = 97 ∷ [];
  timestamp = 70000;
  nonce = 5;
  invite_token = [];
}

joining-FitsRequest : FitsRequest joining
joining-FitsRequest = record {
  node_id = refl;
  public_key = refl;
  virtual_address = refl;
  endpoint = omega arith;
  timestamp = omega arith;
  nonce = omega arith;
  invite_token = omega arith;
}

joining_derived : is_derived same_digest joining.public_key joining.node_id ≡ true
unfolding is_derived bytes_eq
joining_derived = refl

abbrev join_message : ControlMessage
join_message = record {
  type = 4;
  sequence_number = 9;
  sender = id_joining;
  payload = serialize_join_request joining;
}

bare-FitsWire : FitsWire (bare_contact id_here)
bare-FitsWire = record {
  id = refl;
  public_key = refl;
  virtual_address = refl;
  endpoint = omega arith;
  last_seen_ms = omega arith;
  rtt_ms = omega arith;
}

join_answered_example :
    let inserted = (kademlia_insert empty_table (requesting_contact joining) none).0 in
    (reply : ControlMessage) × (dispatch_join_protocol_message same_digest empty_table join_message
        true none true
      ≡ (inserted, some reply))
    × (reply.type ≡ 5)
    × (reply.sequence_number ≡ 9)
    × (reply.sender ≡ inserted.local_id)
    × (deserialize_join_response reply.payload
        ≡ ok (record {
          accepted = true;
          bootstrap_contact = bare_contact id_here;
          bootstrap_id = id_here;
          peers = kademlia_find_closest inserted id_joining 20;
        }))
join_answered_example =
    join_answered same_digest empty_table join_message joining none refl refl joining-FitsRequest
      joining_derived (replicate-Everywhere FitsWire 256) bare-FitsWire

abbrev find_message : ControlMessage
find_message = record {
  type = 6;
  sequence_number = 9;
  sender = id_joining;
  payload = serialize_find_node (record { target = id_joining });
}

find_node_answered_example :
    (reply : ControlMessage) × (dispatch_join_protocol_message same_digest empty_table find_message
        true none false
      ≡ (empty_table, some reply))
    × (reply.type ≡ 7)
    × (reply.sequence_number ≡ 9)
    × (reply.sender ≡ id_here)
    × (deserialize_neighbors reply.payload
        ≡ ok (record { peers = kademlia_find_closest empty_table id_joining 20 }))
find_node_answered_example =
    find_node_answered same_digest empty_table find_message id_joining none false refl refl refl
      (replicate-Everywhere FitsWire 256)

dispatch-IsTable_example :
    IsTable (dispatch_join_protocol_message same_digest empty_table join_message true none true).0
dispatch-IsTable_example =
    dispatch-IsTable same_digest empty_table join_message true none true empty_table-IsTable

dispatch-IsAuthentic_example :
    Everywhere
      (IsAuthentic same_digest)
      (dispatch_join_protocol_message same_digest empty_table join_message true none true).0
dispatch-IsAuthentic_example =
    dispatch-IsAuthentic same_digest empty_table join_message true none true
      (replicate-Everywhere (IsAuthentic same_digest) 256)

-- A peer that always knows the third node.
abbrev id_third : NodeId
id_third = 7 ∷ replicate 31 0

abbrev knows_third : Query
knows_third n peer target = bare_contact id_third ∷ []

abbrev alpha : ℕ
alpha = 3

abbrev one_contact : KademliaTable
one_contact = (kademlia_insert empty_table (bare_contact id_joining) none).0

-- The joining node is asked, then the third node.
self_lookup_run :
    (kademlia_self_lookup one_contact (some knows_third) alpha).queried ≡ id_third ∷ id_joining ∷ []
unfolding kademlia_self_lookup lookup_rounds
self_lookup_run = refl

self_lookup_example :
    let start : Lookup = record { table = one_contact; queried = [] } in
    let r = kademlia_self_lookup one_contact (some knows_third) alpha in
    IsTable r.table
    × ((k : NodeId) → times_asked k r.queried ≤ 1)
    × (length r.queried ≤ 10 * alpha)
    × (((some knows_third ≡ none) ⊎ (alpha ≡ 0)) × (r ≡ start)
        ⊎ ((q : Query) × (some knows_third ≡ some q) × Rounds q alpha 10 start r))
self_lookup_example =
    self_lookup_lem one_contact (some knows_third) alpha
      (insert-IsTable empty_table (bare_contact id_joining) none empty_table-IsTable)
