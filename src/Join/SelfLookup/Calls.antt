-- ===== src/Join/SelfLookup/Calls.antt =====
-- How often, and whom, the lookup of the own id asks.
use madoka.Common.{
  ℕ, zero, suc, ◌+◌, ◌≤◌, ◌≡◌, ◌⊎◌, refl, ap, ◌∙◌, subst, true, false, List, [], ◌∷◌, none, arith,
  length, any_of, All, Bool-cases, inl, inr, take, drop, count_if, count_if-append,
  take-append-drop, find_if,
}
use madoka.Bytes.{NodeId, bytes_eq, bytes_eq_iff}
use madoka.Keyed.{Unique, find_key, has_key}
use madoka.Kademlia.{
  NodeContact, KBucket, KademliaTable, contact_id, kademlia_bucket_index, kademlia_k,
}
use madoka.Kademlia.Closest.{gather, sort_by_distance, kademlia_find_closest}
use madoka.Kademlia.Nearest.{find_closest-take, count-sort}
use madoka.Kademlia.Invariant.{IsTable, AreBuckets, insert-IsTable}
use madoka.Join.{offer_contacts}
use madoka.Join.Invariant.{offer_contacts-Keeps, All-Unit}
use madoka.Join.SelfLookup.{Query, Lookup, contains, choose, ask, query_peers}

offered-IsTable :
    (t : KademliaTable) (cs : List NodeContact) → IsTable t → IsTable (offer_contacts t cs)
offered-IsTable t cs v =
    offer_contacts-Keeps IsTable (λ _. Unit) (λ t c _. insert-IsTable t c none) t cs (All-Unit cs) v

pub query_peers-IsTable :
    (query : Query) (s : Lookup) (peers : List NodeContact)
    → IsTable s.table
    → IsTable (query_peers query s peers).table
unfolding query_peers ask
query_peers-IsTable query s [] v = v
query_peers-IsTable query s (p ∷ ps) v =
    query_peers-IsTable query (ask query s p) ps
      (offered-IsTable s.table (query (length s.queried) p.id s.table.local_id) v)

pub length-query_peers :
    (query : Query) (s : Lookup) (peers : List NodeContact)
    → length (query_peers query s peers).queried ≡ length s.queried + length peers
unfolding query_peers ask
length-query_peers query s [] = omega arith
length-query_peers query s (p ∷ ps) = omega (arith, length-query_peers query (ask query s p) ps)

pub length-choose :
    (room : ℕ) (queried : List NodeId) (cs : List NodeContact)
    → length (choose room queried cs) ≤ room
unfolding choose
length-choose room queried [] = omega arith
length-choose zero queried (c ∷ cs) = omega arith
length-choose (suc room) queried (c ∷ cs) =
    ground (arith, length-choose room queried cs, length-choose (suc room) queried cs)

-- How often an id is among those that have been asked, and among contacts.
abbrev pub times_asked : NodeId → List NodeId → ℕ
times_asked k ids = count_if (λ id. bytes_eq id k) ids

abbrev pub times_listed : NodeId → List NodeContact → ℕ
times_listed k cs = count_if (has_key contact_id k) cs

times_asked-contains :
    (k : NodeId) (ids : List NodeId) → contains k ids ≡ false → times_asked k ids ≡ 0
unfolding contains any_of count_if
times_asked-contains k [] h = refl
times_asked-contains k (id ∷ ids) h = ground (arith, times_asked-contains k ids)

pub times_listed-choose :
    (k : NodeId) (room : ℕ) (queried : List NodeId) (cs : List NodeContact)
    → times_listed k (choose room queried cs) ≤ times_listed k cs
unfolding choose count_if
times_listed-choose k room queried [] = omega arith
times_listed-choose k zero queried (c ∷ cs) = omega arith
times_listed-choose k (suc room) queried (c ∷ cs) =
    ground
      (arith, times_listed-choose k room queried cs, times_listed-choose k (suc room) queried cs)

-- What is chosen has not been asked.
choose-contains :
    (k : NodeId) (room : ℕ) (queried : List NodeId) (cs : List NodeContact)
    → contains k queried ≡ true
    → times_listed k (choose room queried cs) ≡ 0
unfolding choose count_if
choose-contains k room queried [] h = refl
choose-contains k zero queried (c ∷ cs) h = refl
choose-contains k (suc room) queried (c ∷ cs) h =
    let same : bytes_eq c.id k ≡ true → contains c.id queried ≡ true =
      λ e. ap (λ id. contains id queried) ((bytes_eq_iff c.id k).0 e) ∙ h in
    ground
      (arith, same, choose-contains k room queried cs h, choose-contains k (suc room) queried cs h)

times_asked-query_peers :
    (k : NodeId) (query : Query) (s : Lookup) (peers : List NodeContact)
    → times_asked k (query_peers query s peers).queried
      ≡ times_asked k s.queried + times_listed k peers
unfolding query_peers ask count_if
times_asked-query_peers k query s [] = omega arith
times_asked-query_peers k query s (p ∷ ps) =
    ground (arith, times_asked-query_peers k query (ask query s p) ps)

-- No id is listed twice in a well-formed table.
none-listed : (k : NodeId) (b : KBucket) → find_key contact_id k b ≡ none → times_listed k b ≡ 0
unfolding find_key find_if count_if
none-listed k [] h = refl
none-listed k (c ∷ b) h = ground (arith, none-listed k b)

bucket-listed :
    (local : NodeId) (i : ℕ) (k : NodeId) (b : KBucket)
    → Unique contact_id b
    → All (λ c. kademlia_bucket_index local c.id ≡ i) b
    → (times_listed k b ≤ 1) × ((times_listed k b ≡ 0) ⊎ (kademlia_bucket_index local k ≡ i))
unfolding count_if
bucket-listed local i k [] u h = (omega arith, inl refl)
bucket-listed local i k (c ∷ b) u h =
    let (once, at) = bucket-listed local i k b u.1 h.1 in
    let alone = none-listed c.id b u.0 in
    elim (Bool-cases (bytes_eq c.id k)) [
      | inl e ↦
          let same = (bytes_eq_iff c.id k).0 e in
          let rest : times_listed k b ≡ 0 = subst (λ id. times_listed id b ≡ 0) same alone in
          (
            rw e (omega (arith, rest)),
            inr (subst (λ id. kademlia_bucket_index local id ≡ i) same h.0),
          )
      | inr e ↦ rw e (omega (arith, once), ground (arith, at))
    ]

buckets-listed :
    (local : NodeId) (i : ℕ) (k : NodeId) (bs : List KBucket)
    → AreBuckets local i bs
    → (times_listed k (gather bs) ≤ 1)
      × ((times_listed k (gather bs) ≡ 0) ⊎ (i ≤ kademlia_bucket_index local k))
unfolding gather count_if
buckets-listed local i k [] h = (omega arith, inl refl)
buckets-listed local i k (b ∷ bs) h = ground (
  arith,
  bucket-listed local i k b h.0.unique h.0.placed,
  buckets-listed local (i + 1) k bs h.1,
  count_if-append (has_key contact_id k) b (gather bs),
)

closest-listed :
    (t : KademliaTable) (target : NodeId) (count : ℕ) (k : NodeId)
    → IsTable t
    → times_listed k (kademlia_find_closest t target count) ≤ 1
closest-listed t target count k v =
    let found = gather t.buckets in
    let all = sort_by_distance target found in
    let once = (buckets-listed t.local_id 0 k t.buckets v.buckets).0 in
    let kept = count-sort target (has_key contact_id k) found in
    let split = count_if-append (has_key contact_id k) (take count all) (drop count all) in
    let whole = ap (times_listed k) (take-append-drop count all) in
    rw (find_closest-take t target count) (omega (arith, once, kept, split, whole))

-- One round.
pub round-once :
    (query : Query) (alpha : ℕ) (s : Lookup) (k : NodeId)
    → IsTable s.table
    → times_asked k s.queried ≤ 1
    → let close = kademlia_find_closest s.table s.table.local_id kademlia_k in
      times_asked k (query_peers query s (choose alpha s.queried close)).queried ≤ 1
round-once query alpha s k v once =
    let close = kademlia_find_closest s.table s.table.local_id kademlia_k in
    let chosen = times_listed-choose k alpha s.queried close in
    let listed = closest-listed s.table s.table.local_id kademlia_k k v in
    let asked = times_asked-query_peers k query s (choose alpha s.queried close) in
    elim (Bool-cases (contains k s.queried)) [
      | inl e ↦ omega (arith, asked, once, choose-contains k alpha s.queried close e)
      | inr e ↦ omega (arith, asked, chosen, listed, times_asked-contains k s.queried e)
    ]
