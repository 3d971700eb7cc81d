-- ===== src/Kademlia/Closest.antt =====
-- `kademlia_find_closest` of src/network/kademlia.cpp. `std::sort` and `std::partial_sort` are
-- documented to leave the smallest elements in order; insertion sort stands for both, so contacts at
-- the same distance, of which a table of distinct ids has none, come in the order of the buckets.
use madoka.Common.{ℕ, Bool, false, List, [], ◌∷◌, ◌++◌, length, take, ltb, ◌==◌, if◌then◌else◌, not}
use madoka.Bytes.{NodeId}
use madoka.Kademlia.{NodeContact, KBucket, KademliaTable, bit_xor}

-- `distance_cmp`, on what is left of the ids.
unfoldable pub closer : NodeId → NodeId → NodeId → Bool
unfolding bit_xor
closer [] a b = false
closer (t ∷ target) [] b = false
closer (t ∷ target) (x ∷ a) [] = false
closer (t ∷ target) (x ∷ a) (y ∷ b) =
    let rest = closer target a b in
    let da = bit_xor 8 x t in let db = bit_xor 8 y t in if not (da == db) then ltb da db else rest

-- All contacts, bucket by bucket.
unfoldable pub gather : List KBucket → List NodeContact
gather [] = []
gather (b ∷ bs) = b ++ gather bs

-- A contact in front of the first one that is farther away.
unfoldable pub place : NodeId → NodeContact → List NodeContact → List NodeContact
unfolding closer
place target c [] = c ∷ []
place target c (d ∷ ds) =
    let rest = place target c ds in if closer target d.id c.id then d ∷ rest else c ∷ d ∷ ds

unfoldable pub sort_by_distance : NodeId → List NodeContact → List NodeContact
unfolding place
sort_by_distance target [] = []
sort_by_distance target (c ∷ cs) = place target c (sort_by_distance target cs)

unfoldable pub kademlia_find_closest : KademliaTable → NodeId → ℕ → List NodeContact
unfolding gather sort_by_distance
kademlia_find_closest table target count =
    let all = sort_by_distance target (gather table.buckets) in
    if ltb count (length all) then take count all else all
