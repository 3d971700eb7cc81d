-- ===== src/Kademlia/Invariant.antt =====
-- What every operation on the table keeps: 256 buckets of at most 20 contacts, each in the bucket of
-- its id, no id twice.
use madoka.Common.{
  ℕ, zero, suc, ◌+◌, ◌≤◌, ◌<◌, ◌≡◌, refl, ap, sym, ◌∙◌, subst, List, [], ◌∷◌, ◌++◌, none, some,
  arith, length, ltb, inl, inr, Bool-cases, Option-cases, All, All-append, All-erase_first,
  length-append, length-erase_first, erase_first, find_if,
}
use madoka.Bytes.{NodeId, bytes_eq_refl}
use madoka.Keyed.{
  Unique, has_key, find_key, find_key-erase_first, find_key-key, Unique-append, Unique-erase_first,
}
use madoka.Kademlia.Bucket.{lt_of_ltb}
use madoka.Kademlia.{
  NodeContact, KBucket, KademliaTable, Ping, contact_id, kademlia_k, kademlia_buckets, refresh,
  challenge, insert_contact, bucket_at, set_bucket, kademlia_bucket_index, kademlia_insert,
  kademlia_remove,
}

-- A bucket: its size, its ids, and the index that they all have.
pub record IsBucket (local : NodeId) (i : ℕ) (b : KBucket) : Type 0 where
  pub fits : length b ≤ kademlia_k
  pub unique : Unique contact_id b
  pub placed : All (λ c. kademlia_bucket_index local c.id ≡ i) b

abbrev pub AreBuckets : NodeId → ℕ → List KBucket → Type 0
AreBuckets local i [] = Unit
AreBuckets local i (b ∷ bs) = IsBucket local i b × AreBuckets local (i + 1) bs

pub record IsTable (t : KademliaTable) : Type 0 where
  pub size : length t.buckets ≡ kademlia_buckets
  pub buckets : AreBuckets t.local_id 0 t.buckets

pub empty-IsBucket : (local : NodeId) (i : ℕ) → IsBucket local i []
empty-IsBucket local i = record { fits = omega arith; unique = tt; placed = tt }

bucket_at-IsBucket :
    (local : NodeId) (i j : ℕ) (bs : List KBucket)
    → AreBuckets local i bs
    → IsBucket local (i + j) (bucket_at j bs)
unfolding bucket_at
bucket_at-IsBucket local i j [] h = empty-IsBucket local (i + j)
bucket_at-IsBucket local i zero (b ∷ bs) h = subst (λ n. IsBucket local n b) (omega arith) h.0
bucket_at-IsBucket local i (suc j) (b ∷ bs) h =
    subst (λ n. IsBucket local n (bucket_at j bs)) (omega arith)
      (bucket_at-IsBucket local (i + 1) j bs h.1)

pub table-IsBucket :
    (t : KademliaTable) (i : ℕ) → IsTable t → IsBucket t.local_id i (bucket_at i t.buckets)
table-IsBucket t i v =
    subst (λ n. IsBucket t.local_id n (bucket_at i t.buckets)) (omega arith)
      (bucket_at-IsBucket t.local_id 0 i t.buckets v.buckets)

pub length-set_bucket :
    (j : ℕ) (b : KBucket) (bs : List KBucket) → length (set_bucket j b bs) ≡ length bs
unfolding set_bucket
length-set_bucket j b [] = refl
length-set_bucket zero b (b' ∷ bs) = refl
length-set_bucket (suc j) b (b' ∷ bs) = ap suc (length-set_bucket j b bs)

set_bucket-AreBuckets :
    (local : NodeId) (i j : ℕ) (b : KBucket) (bs : List KBucket)
    → IsBucket local (i + j) b
    → AreBuckets local i bs
    → AreBuckets local i (set_bucket j b bs)
unfolding set_bucket
set_bucket-AreBuckets local i j b [] good h = tt
set_bucket-AreBuckets local i zero b (b' ∷ bs) good h =
    (subst (λ n. IsBucket local n b) (omega arith) good, h.1)
set_bucket-AreBuckets local i (suc j) b (b' ∷ bs) good h = (
  h.0,
  set_bucket-AreBuckets local (i + 1) j b bs (subst (λ n. IsBucket local n b) (omega arith) good)
      h.1,
)

set_bucket-IsTable :
    (t : KademliaTable) (j : ℕ) (b : KBucket)
    → IsBucket t.local_id j b
    → IsTable t
    → IsTable (record t { buckets = set_bucket j b t.buckets })
set_bucket-IsTable t j b good v = record {
  size = length-set_bucket j b t.buckets ∙ v.size;
  buckets =
      set_bucket-AreBuckets t.local_id 0 j b t.buckets
        (subst (λ n. IsBucket t.local_id n b) (omega arith) good) v.buckets;
}

-- One contact behind the others.
append-IsBucket :
    (local : NodeId) (i : ℕ) (b : KBucket) (c : NodeContact)
    → IsBucket local i b
    → length b < kademlia_k
    → find_key contact_id c.id b ≡ none
    → kademlia_bucket_index local c.id ≡ i
    → IsBucket local i (b ++ c ∷ [])
append-IsBucket local i b c v room new at = record {
  fits = omega (arith, room, length-append b (c ∷ []));
  unique = Unique-append contact_id b c v.unique new;
  placed = All-append (λ c. kademlia_bucket_index local c.id ≡ i) b (c ∷ []) v.placed (at, tt);
}

-- Erasing a contact that is there makes room.
length-erase_known :
    (id : NodeId) (b : KBucket) (old : NodeContact)
    → find_key contact_id id b ≡ some old
    → length (erase_first (has_key contact_id id) b) < length b
unfolding find_key find_if erase_first
length-erase_known id [] old e = absurd (ground arith)
length-erase_known id (c ∷ b) old e = ground (arith, length-erase_known id b old)

erase-IsBucket :
    (local : NodeId) (i : ℕ) (id : NodeId) (b : KBucket)
    → IsBucket local i b
    → IsBucket local i (erase_first (has_key contact_id id) b)
erase-IsBucket local i id b v = record {
  fits = omega (arith, v.fits, length-erase_first (has_key contact_id id) b);
  unique = Unique-erase_first contact_id id b v.unique;
  placed =
      All-erase_first (has_key contact_id id) (λ c. kademlia_bucket_index local c.id ≡ i) b
        v.placed;
}

tail-IsBucket :
    (local : NodeId) (i : ℕ) (c : NodeContact) (b : KBucket)
    → IsBucket local i (c ∷ b)
    → IsBucket local i b
tail-IsBucket local i c b v = record {
  fits = omega (arith, v.fits);
  unique = v.unique.1;
  placed = v.placed.1;
}

tail-find :
    (k : NodeId) (c : NodeContact) (b : KBucket)
    → find_key contact_id k (c ∷ b) ≡ none
    → find_key contact_id k b ≡ none
unfolding find_key find_if
tail-find k c b e = ground arith

challenge-IsBucket :
    (local : NodeId) (i : ℕ) (b : KBucket) (c : NodeContact) (ping : Ping)
    → IsBucket local i b
    → find_key contact_id c.id b ≡ none
    → kademlia_bucket_index local c.id ≡ i
    → IsBucket local i (challenge b c ping).0
unfolding challenge
challenge-IsBucket local i b c none v new at = v
challenge-IsBucket local i [] c (some ping) v new at = v
challenge-IsBucket local i (oldest ∷ rest) c (some ping) v new at =
    let tail = tail-IsBucket local i oldest rest v in
    let room : length rest < kademlia_k = omega (arith, v.fits) in
    ground (
      arith,
      append-IsBucket local i rest oldest tail room v.unique.0 v.placed.0,
      append-IsBucket local i rest c tail room (tail-find c.id oldest rest new) at,
    )

insert_contact-IsBucket :
    (local : NodeId) (i : ℕ) (b : KBucket) (c : NodeContact) (ping : Ping)
    → IsBucket local i b
    → kademlia_bucket_index local c.id ≡ i
    → IsBucket local i (insert_contact b c ping).0
unfolding insert_contact
insert_contact-IsBucket local i b c ping v at = elim (Option-cases (find_key contact_id c.id b)) [
  | inr (old, e) ↦
      let same = find_key-key contact_id c.id b old e in
      let rest = erase-IsBucket local i c.id b v in
      let erased = erase_first (has_key contact_id c.id) b in
      let gone : find_key contact_id c.id erased ≡ none =
        ground (arith, find_key-erase_first contact_id c.id c.id b v.unique, bytes_eq_refl c.id) in
      ground (
        arith,
        e,
        append-IsBucket local i erased (refresh c old) rest
            (omega (arith, length-erase_known c.id b old e, v.fits))
            (subst (λ k. find_key contact_id k erased ≡ none) (sym same) gone)
            (subst (λ k. kademlia_bucket_index local k ≡ i) (sym same) at),
      )
  | inl e ↦ elim (Bool-cases (ltb (length b) kademlia_k)) [
    | inl room ↦
        let r : length b < kademlia_k = lt_of_ltb room in
        ground (arith, e, append-IsBucket local i b c v r e at)
    | inr full ↦ ground (arith, e, challenge-IsBucket local i b c ping v e at)
  ]
]

-- A well-formed table, of 256 buckets with at most 20 contacts each, every contact in the bucket
-- of its id and no id twice in one, stays well-formed when a contact is offered, whatever the
-- ping answers.
pub insert-IsTable :
    (t : KademliaTable) (c : NodeContact) (ping : Ping)
    → IsTable t
    → IsTable (kademlia_insert t c ping).0
unfolding kademlia_insert
insert-IsTable t c ping v =
    let i = kademlia_bucket_index t.local_id c.id in
    let b = bucket_at i t.buckets in
    let good = insert_contact-IsBucket t.local_id i b c ping (table-IsBucket t i v) refl in
    ground (arith, set_bucket-IsTable t i (insert_contact b c ping).0 good v)

-- So does removing one.
pub remove-IsTable :
    (t : KademliaTable) (id : NodeId) → IsTable t → IsTable (kademlia_remove t id).0
unfolding kademlia_remove
remove-IsTable t id v =
    let i = kademlia_bucket_index t.local_id id in
    let b = bucket_at i t.buckets in
    let good = erase-IsBucket t.local_id i id b (table-IsBucket t i v) in
    ground (arith, set_bucket-IsTable t i (erase_first (has_key contact_id id) b) good v)
