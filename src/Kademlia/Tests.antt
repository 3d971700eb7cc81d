-- ===== src/Kademlia/Tests.antt =====
-- A concrete table of contacts, and the theorems on it.
use madoka.Common.{
  ℕ, ◌+◌, ◌≡◌, ◌≢◌, refl, false, [], ◌∷◌, some, arith, zero, suc, ◌==◌, replicate, if◌then◌else◌,
}
use madoka.Bytes.{NodeId, IsArray, zero_address}
use madoka.Kademlia.{
  NodeContact, KademliaTable, Ping, kademlia_distance, kademlia_bucket_index, kademlia_insert,
  kademlia_find, bit_xor, countl_zero, index_from,
}
use madoka.Kademlia.Closest.{kademlia_find_closest, gather, sort_by_distance, place, closer}
use madoka.Kademlia.Bucket.{found_after}
use madoka.Kademlia.Invariant.{IsTable, AreBuckets, empty-IsBucket, insert-IsTable}
use madoka.Kademlia.Lookup.{bucket_of, find-insert}

abbrev id_here : NodeId
id_here = 1 ∷ replicate 31 0

abbrev id_near : NodeId
id_near = 1 ∷ 64 ∷ replicate 30 0

abbrev near : NodeContact
near = record {
  id = id_near;
  public_key = [];
  virtual_address = zero_address;
  endpoint = 97 ∷ [];
  last_seen_ms = 5;
  rtt_ms = 2;
  failed_pings = 0;
}

abbrev bare : KademliaTable
bare = record { local_id = id_here; buckets = replicate 256 [] }

replicate-AreBuckets : (n i : ℕ) → AreBuckets id_here i (replicate n [])
replicate-AreBuckets zero i = tt
replicate-AreBuckets (suc n) i = (empty-IsBucket id_here i, replicate-AreBuckets n (i + 1))

bare-IsTable : IsTable bare
bare-IsTable = record { size = refl; buckets = replicate-AreBuckets 256 0 }

abbrev nobody : Ping
nobody = some (λ _. false)

here-IsArray : IsArray 32 id_here
here-IsArray = (refl, ground arith)

near-IsArray : IsArray 32 id_near
near-IsArray = (refl, ground arith)

here_ne_near : id_here ≢ id_near
here_ne_near e = cc

-- The first bit that differs is the second of the second byte.
index_run : kademlia_bucket_index id_here id_near ≡ 9
unfolding kademlia_bucket_index index_from bit_xor countl_zero
index_run = refl

distance_run : kademlia_distance (5 ∷ []) (3 ∷ []) ≡ 6 ∷ []
unfolding kademlia_distance bit_xor
distance_run = refl

insert-IsTable_example : IsTable (kademlia_insert bare near nobody).0
insert-IsTable_example = insert-IsTable bare near nobody bare-IsTable

find-insert_example : kademlia_find (kademlia_insert bare near nobody).0 id_near ≡ (
    if kademlia_bucket_index id_here id_near == kademlia_bucket_index id_here id_near
    then found_after (bucket_of bare id_near) near nobody id_near
    else kademlia_find bare id_near)
find-insert_example =
    find-insert bare near nobody id_near bare-IsTable here-IsArray near-IsArray here_ne_near

abbrev farther : NodeContact
farther = record near { id = 9 ∷ replicate 31 0 }

abbrev pair : KademliaTable
pair = record { local_id = id_here; buckets = (farther ∷ near ∷ []) ∷ [] }

closest_run : kademlia_find_closest pair id_here 1 ≡ near ∷ []
unfolding kademlia_find_closest sort_by_distance place closer gather bit_xor
closest_run = refl
