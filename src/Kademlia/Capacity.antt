-- ===== src/Kademlia/Capacity.antt =====
-- How many contacts a table holds, and the empty table.
use madoka.Common.{ℕ, ◌+◌, ◌*◌, ◌≤◌, ◌≡◌, refl, ap, ◌∙◌, List, [], ◌∷◌, some, arith, length, suc}
use madoka.Bytes.{NodeId}
use madoka.Kademlia.{
  KBucket, KademliaTable, kademlia_k, kademlia_buckets, kademlia_init, kademlia_clear,
  clear_buckets, kademlia_total_contacts, total_of,
}
use madoka.Kademlia.Invariant.{IsTable, AreBuckets, empty-IsBucket}

clear-AreBuckets :
    (local : NodeId) (i : ℕ) (bs : List KBucket)
    → AreBuckets local i (clear_buckets bs)
      × (length (clear_buckets bs) ≡ length bs)
      × (total_of (clear_buckets bs) ≡ 0)
unfolding clear_buckets total_of
clear-AreBuckets local i [] = (tt, refl, refl)
clear-AreBuckets local i (b ∷ bs) =
    let r = clear-AreBuckets local (i + 1) bs in
    ((empty-IsBucket local i, r.0), ap suc r.1, omega (arith, r.2))

-- A table of 256 buckets is well-formed after `kademlia_init` for any id, and holds nothing.
pub init_lem :
    (t : KademliaTable) (local : NodeId)
    → length t.buckets ≡ kademlia_buckets
    → (s : KademliaTable) × (kademlia_init (some t) local ≡ some s)
      × IsTable s
      × (s.local_id ≡ local)
      × (kademlia_total_contacts s ≡ 0)
unfolding kademlia_init kademlia_clear kademlia_total_contacts
init_lem t local size =
    let r = clear-AreBuckets local 0 t.buckets in
    (
      record { local_id = local; buckets = clear_buckets t.buckets },
      refl,
      record { size = r.1 ∙ size; buckets = r.0 },
      refl,
      r.2,
    )

total_of-le :
    (local : NodeId) (i : ℕ) (bs : List KBucket)
    → AreBuckets local i bs
    → total_of bs ≤ kademlia_k * length bs
unfolding total_of
total_of-le local i [] h = omega arith
total_of-le local i (b ∷ bs) h = omega (arith, h.0.fits, total_of-le local (i + 1) bs h.1)

-- A well-formed table holds at most 5120 contacts.
pub total-le : (t : KademliaTable) → IsTable t → kademlia_total_contacts t ≤ 5120
unfolding kademlia_total_contacts
total-le t v = omega (arith, total_of-le t.local_id 0 t.buckets v.buckets, v.size)
