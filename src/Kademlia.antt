-- ===== src/Kademlia.antt =====
-- include/network/kademlia.hpp and src/network/kademlia.cpp: the table of known contacts, in 256
-- buckets by distance from the local id. A `NodeContact*` that is returned is the contact found.
pub mod Index
pub mod Bucket
pub mod Invariant
pub mod Lookup
pub mod Capacity
pub mod Closest
pub mod Nearest
pub mod Contents
mod Tests
use madoka.Common.{
  ℕ, zero, suc, ◌+◌, ◌*◌, ◌/◌, ◌%◌, Bool, true, false, List, [], ◌∷◌, ◌++◌, Option, none, some,
  length, take, replicate, ltb, leb, ◌==◌, if◌then◌else◌, erase_first, not,
}
use madoka.Bytes.{NodeId, IPv6, bytes_eq}
use madoka.Keyed.{has_key, find_key}

abbrev pub kademlia_k : ℕ
kademlia_k = 20

abbrev pub kademlia_buckets : ℕ
kademlia_buckets = 256

pub record NodeContact : Type 0 where
  pub id : NodeId
  pub public_key : List ℕ
  pub virtual_address : IPv6
  pub endpoint : List ℕ
  pub last_seen_ms : ℕ
  pub rtt_ms : ℕ
  pub failed_pings : ℕ

-- `KBucket::contacts`, the least recently seen first.
abbrev pub KBucket : Type 0
KBucket = List NodeContact

pub record KademliaTable : Type 0 where
  pub local_id : NodeId
  pub buckets : List KBucket

abbrev pub contact_id : NodeContact → NodeId
contact_id c = c.id

-- `^` on the lowest bits of two numbers, 8 of them for a `uint8_t`.
unfoldable pub bit_xor : ℕ → ℕ → ℕ → ℕ
bit_xor zero a b = 0
bit_xor (suc bits) a b = (if a % 2 == b % 2 then 0 else 1) + 2 * bit_xor bits (a / 2) (b / 2)

-- `std::countl_zero` on a `uint8_t`
unfoldable pub countl_zero : ℕ → ℕ
countl_zero v =
    if leb 128 v
    then 0
    else if leb 64 v
    then 1
    else if leb 32 v
    then 2
    else if leb 16 v
    then 3
    else if leb 8 v
    then 4
    else if leb 4 v
    then 5
    else if leb 2 v
    then 6
    else if leb 1 v
    then 7
    else 8

unfoldable pub kademlia_distance : NodeId → NodeId → List ℕ
unfolding bit_xor
kademlia_distance [] b = []
kademlia_distance (x ∷ a) [] = []
kademlia_distance (x ∷ a) (y ∷ b) = bit_xor 8 x y ∷ kademlia_distance a b

-- The loop of `kademlia_bucket_index`, at byte `i`; 256 where it ends.
unfoldable pub index_from : ℕ → NodeId → NodeId → ℕ
unfolding bit_xor countl_zero
index_from i [] b = 256
index_from i (x ∷ a) [] = 256
index_from i (x ∷ a) (y ∷ b) =
    let rest = index_from (i + 1) a b in
    let v = bit_xor 8 x y in if not (v == 0) then i * 8 + countl_zero v else rest

unfoldable pub kademlia_bucket_index : NodeId → NodeId → ℕ
unfolding index_from
kademlia_bucket_index local remote = index_from 0 local remote

-- `table.buckets[i]`, read and written. The callers have checked `i`.
unfoldable pub bucket_at : ℕ → List KBucket → KBucket
bucket_at i [] = []
bucket_at zero (b ∷ bs) = b
bucket_at (suc i) (b ∷ bs) = bucket_at i bs

unfoldable pub set_bucket : ℕ → KBucket → List KBucket → List KBucket
set_bucket i b' [] = []
set_bucket zero b' (b ∷ bs) = b' ∷ bs
set_bucket (suc i) b' (b ∷ bs) = b ∷ set_bucket i b' bs

-- `updated` of `kademlia_insert`.
abbrev pub refresh : NodeContact → NodeContact → NodeContact
refresh contact old = record old {
  public_key = contact.public_key;
  virtual_address = contact.virtual_address;
  endpoint = elim contact.endpoint [ [] ↦ old.endpoint | _ ∷ _ ↦ contact.endpoint ];
  last_seen_ms = contact.last_seen_ms;
  rtt_ms = contact.rtt_ms;
  failed_pings = 0;
}

-- `std::function<bool(const NodeContact&)>`, which may be empty: a client's function.
abbrev pub Ping : Type 0
Ping = Option (NodeContact → Bool)

-- The end of `kademlia_insert`, where the bucket is full. An empty bucket is not full.
unfoldable pub challenge : KBucket → NodeContact → Ping → KBucket × Bool
challenge bucket contact none = (bucket, false)
challenge [] contact (some ping) = ([], false)
challenge (oldest ∷ rest) contact (some ping) =
    if ping oldest then (rest ++ oldest ∷ [], false) else (rest ++ contact ∷ [], true)

-- What `kademlia_insert` does with the bucket of the contact.
unfoldable pub insert_contact : KBucket → NodeContact → Ping → KBucket × Bool
unfolding find_key erase_first challenge
insert_contact bucket contact ping = elim (find_key contact_id contact.id bucket) [
  | some old ↦
      (erase_first (has_key contact_id contact.id) bucket ++ refresh contact old ∷ [], true)
  | none ↦
      if ltb (length bucket) kademlia_k
      then (bucket ++ contact ∷ [], true)
      else challenge bucket contact ping
]

unfoldable pub kademlia_insert : KademliaTable → NodeContact → Ping → KademliaTable × Bool
unfolding bytes_eq kademlia_bucket_index bucket_at set_bucket insert_contact
kademlia_insert table contact ping =
    let i = kademlia_bucket_index table.local_id contact.id in
    let r = insert_contact (bucket_at i table.buckets) contact ping in
    if bytes_eq contact.id table.local_id
    then (table, false)
    else if leb kademlia_buckets i
    then (table, false)
    else (record table { buckets = set_bucket i r.0 table.buckets }, r.1)

unfoldable pub kademlia_remove : KademliaTable → NodeId → KademliaTable × Bool
unfolding kademlia_bucket_index bucket_at set_bucket find_key erase_first
kademlia_remove table id =
    let i = kademlia_bucket_index table.local_id id in
    let bucket = bucket_at i table.buckets in
    if leb kademlia_buckets i then (table, false) else elim (find_key contact_id id bucket) [
      | some _ ↦ (
        record table {
          buckets = set_bucket i (erase_first (has_key contact_id id) bucket) table.buckets;
        },
        true,
      )
      | none ↦ (table, false)
    ]

unfoldable pub kademlia_find : KademliaTable → NodeId → Option NodeContact
unfolding kademlia_bucket_index bucket_at find_key
kademlia_find table id =
    let i = kademlia_bucket_index table.local_id id in
    if leb kademlia_buckets i then none else find_key contact_id id (bucket_at i table.buckets)

-- The loop of `kademlia_total_contacts`.
unfoldable pub total_of : List KBucket → ℕ
total_of [] = 0
total_of (b ∷ bs) = length b + total_of bs

unfoldable pub kademlia_total_contacts : KademliaTable → ℕ
unfolding total_of
kademlia_total_contacts table = total_of table.buckets

-- The loop of `kademlia_clear`.
unfoldable pub clear_buckets : List KBucket → List KBucket
clear_buckets [] = []
clear_buckets (b ∷ bs) = [] ∷ clear_buckets bs

unfoldable pub kademlia_clear : KademliaTable → KademliaTable
unfolding clear_buckets
kademlia_clear table = record table { buckets = clear_buckets table.buckets }

-- The pointer is `none` where it is null.
unfoldable pub kademlia_init : Option KademliaTable → NodeId → Option KademliaTable
unfolding kademlia_clear
kademlia_init none local_id = none
kademlia_init (some table) local_id = some (kademlia_clear (record table { local_id = local_id }))
