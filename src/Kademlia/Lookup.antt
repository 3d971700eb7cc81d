-- ===== src/Kademlia/Lookup.antt =====
-- What a lookup in the table sees after each operation.
use madoka.Common.{
  ℕ, zero, suc, ◌<◌, ◌≡◌, ◌≢◌, refl, ap, sym, true, false, List, [], ◌∷◌, none, some, arith, length,
  ◌==◌, if◌then◌else◌, ◌↔◌, inl, inr, Option-cases, erase_first,
}
use madoka.Bytes.{NodeId, IsArray, bytes_eq, bytes_eq_iff}
use madoka.Keyed.{has_key, find_key, find_key-erase_first}
use madoka.Kademlia.{
  NodeContact, KBucket, KademliaTable, Ping, contact_id, kademlia_buckets, insert_contact,
  bucket_at, set_bucket, kademlia_bucket_index, kademlia_insert, kademlia_remove, kademlia_find,
}
use madoka.Kademlia.Index.{bucket_index_iff}
use madoka.Kademlia.Bucket.{found_after, insert_contact-find}
use madoka.Kademlia.Invariant.{IsTable, table-IsBucket}

bucket_at-set_bucket :
    (j k : ℕ) (b : KBucket) (bs : List KBucket)
    → j < length bs
    → bucket_at k (set_bucket j b bs) ≡ (if j == k then b else bucket_at k bs)
unfolding bucket_at set_bucket
bucket_at-set_bucket j k b [] h = absurd (omega arith)
bucket_at-set_bucket zero zero b (b' ∷ bs) h = refl
bucket_at-set_bucket zero (suc k) b (b' ∷ bs) h = ground arith
bucket_at-set_bucket (suc j) zero b (b' ∷ bs) h = ground arith
bucket_at-set_bucket (suc j) (suc k) b (b' ∷ bs) h =
    ground (arith, bucket_at-set_bucket j k b bs (omega arith))

-- What is found in a table whose bucket `i` has been replaced.
find-set_bucket :
    (t : KademliaTable) (i : ℕ) (b : KBucket) (k : NodeId)
    → IsTable t
    → i < kademlia_buckets
    → kademlia_find (record t { buckets = set_bucket i b t.buckets }) k ≡ (
        if i == kademlia_bucket_index t.local_id k
        then find_key contact_id k b
        else kademlia_find t k)
unfolding kademlia_find
find-set_bucket t i b k v lt =
    let j = kademlia_bucket_index t.local_id k in
    ground (arith, bucket_at-set_bucket i j b t.buckets (omega (arith, v.size)))

abbrev pub bucket_of : KademliaTable → NodeId → KBucket
bucket_of t id = bucket_at (kademlia_bucket_index t.local_id id) t.buckets

-- Offer a contact other than the local node, with ids of 32 bytes, to a well-formed table. Under
-- the id of the contact it is then found refreshed, if it was known; as offered, if it was taken
-- in; and not found, if it was turned away. In its bucket the contact that it evicts is found no
-- more. Whatever else is looked up is found as before.
pub find-insert :
    (t : KademliaTable) (c : NodeContact) (ping : Ping) (k : NodeId)
    → IsTable t
    → IsArray 32 t.local_id
    → IsArray 32 c.id
    → t.local_id ≢ c.id
    → kademlia_find (kademlia_insert t c ping).0 k ≡ (
        if kademlia_bucket_index t.local_id c.id == kademlia_bucket_index t.local_id k
        then found_after (bucket_of t c.id) c ping k
        else kademlia_find t k)
unfolding kademlia_insert
find-insert t c ping k v hl hc other =
    let i = kademlia_bucket_index t.local_id c.id in
    let b = bucket_at i t.buckets in
    let lt = (bucket_index_iff t.local_id c.id hl hc).1 other in
    let good = table-IsBucket t i v in
    ground (
      arith,
      lt,
      bytes_eq_iff c.id t.local_id,
      find-set_bucket t i (insert_contact b c ping).0 k v lt,
      insert_contact-find b c ping k good.unique,
    )

-- The local node is never a contact: it is turned away, and the table stays as it is.
pub insert_local :
    (t : KademliaTable) (c : NodeContact) (ping : Ping)
    → c.id ≡ t.local_id
    → kademlia_insert t c ping ≡ (t, false)
unfolding kademlia_insert
insert_local t c ping e = ground (arith, bytes_eq_iff c.id t.local_id)

remove-eq :
    (t : KademliaTable) (id : NodeId)
    → let i = kademlia_bucket_index t.local_id id in
      kademlia_remove t id ≡ (elim (kademlia_find t id) [
        | none ↦ (t, false)
        | some _ ↦ (
          record t {
            buckets =
                set_bucket i
                  (erase_first (has_key contact_id id) (bucket_at i t.buckets))
                  t.buckets;
          },
          true,
        )
      ])
unfolding kademlia_remove kademlia_find
remove-eq t id = ground arith

find-index :
    (t : KademliaTable) (id : NodeId) (c : NodeContact)
    → kademlia_find t id ≡ some c
    → let i = kademlia_bucket_index t.local_id id in
      (i < kademlia_buckets) × (find_key contact_id id (bucket_at i t.buckets) ≡ some c)
unfolding kademlia_find
find-index t id c e = ground arith

find-at :
    (t : KademliaTable) (i : ℕ) (k : NodeId)
    → i < kademlia_buckets
    → kademlia_bucket_index t.local_id k ≡ i
    → kademlia_find t k ≡ find_key contact_id k (bucket_at i t.buckets)
unfolding kademlia_find
find-at t i k lt e = ground (arith, e)

find-remove_known :
    (t : KademliaTable) (id k : NodeId) (c : NodeContact)
    → IsTable t
    → kademlia_find t id ≡ some c
    → let i = kademlia_bucket_index t.local_id id in
      kademlia_find
        (record t {
          buckets =
              set_bucket i (erase_first (has_key contact_id id) (bucket_at i t.buckets)) t.buckets;
        })
        k
      ≡ (if bytes_eq id k then none else kademlia_find t k)
find-remove_known t id k c v e =
    let i = kademlia_bucket_index t.local_id id in
    let (lt, _) = find-index t id c e in
    let b = bucket_at i t.buckets in
    let good = table-IsBucket t i v in
    let same : bytes_eq id k ≡ true → kademlia_bucket_index t.local_id k ≡ i =
      λ h. ap (kademlia_bucket_index t.local_id) (sym ((bytes_eq_iff id k).0 h)) in
    ground (
      arith,
      same,
      find-at t i k lt,
      find-set_bucket t i (erase_first (has_key contact_id id) b) k v lt,
      find_key-erase_first contact_id k id b good.unique,
    )

-- Removing an id from a well-formed table returns whether it was there; afterwards it is not
-- found, and every other id is found as before.
find-remove :
    (t : KademliaTable) (id k : NodeId)
    → IsTable t
    → (((kademlia_remove t id).1 ≡ false) ↔ (kademlia_find t id ≡ none))
      × (kademlia_find (kademlia_remove t id).0 k
          ≡ (if bytes_eq id k then none else kademlia_find t k))
find-remove t id k v = elim (Option-cases (kademlia_find t id)) [
  | inl e ↦ (
    (λ _. e, λ _. ground (arith, e, remove-eq t id)),
    ground (arith, e, remove-eq t id, bytes_eq_iff id k),
  )
  | inr (c, e) ↦ (
    (λ h. absurd (ground (arith, e, h, remove-eq t id)), λ h. absurd cc),
    ground (arith, e, remove-eq t id, find-remove_known t id k c v e),
  )
]
