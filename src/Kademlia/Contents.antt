-- ===== src/Kademlia/Contents.antt =====
-- Properties of every contact of a table, through insertion and through the search for the closest.
use madoka.Common.{
  ℕ, zero, suc, ◌≡◌, List, [], ◌∷◌, none, some, arith, length, ltb, inl, inr, Bool-cases,
  Option-cases, All, All-append, All-erase_first, All-take, erase_first,
}
use madoka.Bytes.{NodeId}
use madoka.Keyed.{has_key, find_key, find_key-key, All-find_key}
use madoka.Kademlia.{
  NodeContact, KBucket, KademliaTable, Ping, contact_id, kademlia_k, refresh, challenge,
  insert_contact, bucket_at, set_bucket, kademlia_bucket_index, kademlia_insert,
}
use madoka.Kademlia.Closest.{gather, sort_by_distance, kademlia_find_closest}
use madoka.Kademlia.Nearest.{place-All, find_closest-take}

-- A property of every contact of a table.
abbrev pub Everywhere : (NodeContact → Type 0) → KademliaTable → Type 0
Everywhere P t = All (All P) t.buckets

module _ (P : NodeContact → Type 0) where
  bucket_at-All : (i : ℕ) (bs : List KBucket) → All (All P) bs → All P (bucket_at i bs)
  unfolding bucket_at
  bucket_at-All i [] h = tt
  bucket_at-All zero (b ∷ bs) h = h.0
  bucket_at-All (suc i) (b ∷ bs) h = bucket_at-All i bs h.1

  set_bucket-All :
      (i : ℕ) (b : KBucket) (bs : List KBucket)
      → All P b
      → All (All P) bs
      → All (All P) (set_bucket i b bs)
  unfolding set_bucket
  set_bucket-All i b [] h k = tt
  set_bucket-All zero b (b' ∷ bs) h k = (h, k.1)
  set_bucket-All (suc i) b (b' ∷ bs) h k = (k.0, set_bucket-All i b bs h k.1)

  pub gather-All : (bs : List KBucket) → All (All P) bs → All P (gather bs)
  unfolding gather
  gather-All [] h = tt
  gather-All (b ∷ bs) h = All-append P b (gather bs) h.0 (gather-All bs h.1)

  challenge-All :
      (b : KBucket) (c : NodeContact) (ping : Ping) → P c → All P b → All P (challenge b c ping).0
  unfolding challenge
  challenge-All b c none p h = h
  challenge-All [] c (some ping) p h = h
  challenge-All (oldest ∷ rest) c (some ping) p h =
      ground (
        arith,
        All-append P rest (oldest ∷ []) h.1 (h.0, tt),
        All-append P rest (c ∷ []) h.1 (p, tt),
      )

  insert_contact-All :
      (b : KBucket) (c : NodeContact) (ping : Ping)
      → P c
      → ((old : NodeContact) → old.id ≡ c.id → P old → P (refresh c old))
      → All P b
      → All P (insert_contact b c ping).0
  unfolding insert_contact
  insert_contact-All b c ping p r h = elim (Option-cases (find_key contact_id c.id b)) [
    | inr (old, e) ↦
        let known = All-find_key contact_id P c.id b old h e in
        let same = find_key-key contact_id c.id b old e in
        let erased = erase_first (has_key contact_id c.id) b in
        rw (insert_contact, e)
          (All-append P erased (refresh c old ∷ [])
            (All-erase_first (has_key contact_id c.id) P b h) (r old same known, tt))
    | inl e ↦ elim (Bool-cases (ltb (length b) kademlia_k)) [
      | inl room ↦ rw (insert_contact, e, room) (All-append P b (c ∷ []) h (p, tt))
      | inr full ↦ rw (insert_contact, e, full) (challenge-All b c ping p h)
    ]
  ]

  -- A property of the contact that is offered, which a known contact has when it is refreshed, stays
  -- one of every contact.
  pub insert-Everywhere :
      (t : KademliaTable) (c : NodeContact) (ping : Ping)
      → P c
      → ((old : NodeContact) → old.id ≡ c.id → P old → P (refresh c old))
      → Everywhere P t
      → Everywhere P (kademlia_insert t c ping).0
  unfolding kademlia_insert
  insert-Everywhere t c ping p r h =
      let i = kademlia_bucket_index t.local_id c.id in
      let b = bucket_at i t.buckets in
      let good = insert_contact-All b c ping p r (bucket_at-All i t.buckets h) in
      ground (arith, h, set_bucket-All i (insert_contact b c ping).0 t.buckets good h)

  sort-All :
      (target : NodeId) (cs : List NodeContact) → All P cs → All P (sort_by_distance target cs)
  unfolding sort_by_distance
  sort-All target [] h = tt
  sort-All target (c ∷ cs) h =
      place-All target P c (sort_by_distance target cs) h.0 (sort-All target cs h.1)

  -- What is found closest is in the table.
  pub find_closest-All :
      (t : KademliaTable) (target : NodeId) (count : ℕ)
      → Everywhere P t
      → All P (kademlia_find_closest t target count)
  find_closest-All t target count h = rw (find_closest-take t target count) (
      All-take P count (sort_by_distance target (gather t.buckets))
        (sort-All target (gather t.buckets) (gather-All t.buckets h)))
