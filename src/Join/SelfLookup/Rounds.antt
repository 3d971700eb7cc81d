-- ===== src/Join/SelfLookup/Rounds.antt =====
-- The rounds of the lookup of the own id.
use native.Mathlib.Nat.{suc-mul}
use madoka.Common.{
  ℕ, zero, suc, ◌+◌, ◌*◌, ◌≤◌, ◌≡◌, ◌⊎◌, refl, true, false, List, [], ◌∷◌, Option, none, some,
  arith, length, All, Bool-cases, inl, inr, ◌==◌, count_if,
}
use madoka.Bytes.{NodeId}
use madoka.Kademlia.{NodeContact, KademliaTable, kademlia_k}
use madoka.Kademlia.Closest.{kademlia_find_closest}
use madoka.Kademlia.Invariant.{IsTable}
use madoka.Join.SelfLookup.{
  Query, Lookup, contains, choose, query_peers, lookup_rounds, max_rounds, kademlia_self_lookup,
}
use madoka.Join.SelfLookup.Calls.{
  query_peers-IsTable, length-query_peers, length-choose, times_asked, times_listed,
  times_listed-choose, round-once,
}

-- The contacts that a round may ask.
abbrev pub candidates : Lookup → List NodeContact
candidates s = kademlia_find_closest s.table s.table.local_id kademlia_k

-- A round asks one contact at least and `alpha` at most, none of which has been asked, and all of which
-- are among the candidates at its start.
pub record IsRound (query : Query) (alpha : ℕ) (s s' : Lookup) : Type 0 where
  pub peers : List NodeContact
  pub asked : s' ≡ query_peers query s peers
  pub one : 1 ≤ length peers
  pub few : length peers ≤ alpha
  pub new : All (λ c. contains c.id s.queried ≡ false) peers
  pub close : (k : NodeId) → times_listed k peers ≤ times_listed k (candidates s)

-- Every candidate has been asked.
abbrev pub IsExhausted : Lookup → Type 0
IsExhausted s = All (λ c. contains c.id s.queried ≡ true) (candidates s)

-- So many rounds at most, fewer only where every candidate has been asked at the end.
pub data Rounds (query : Query) (alpha : ℕ) : ℕ → Lookup → Lookup → Type 0 where
  used_up : {s : Lookup} → Rounds query alpha zero s s
  exhausted : {rounds : ℕ} {s : Lookup} → IsExhausted s → Rounds query alpha (suc rounds) s s
  round :
      {rounds : ℕ} {s s' r : Lookup}
      → IsRound query alpha s s'
      → Rounds query alpha rounds s' r
      → Rounds query alpha (suc rounds) s r

choose-new :
    (room : ℕ) (queried : List NodeId) (cs : List NodeContact)
    → All (λ c. contains c.id queried ≡ false) (choose room queried cs)
unfolding choose
choose-new room queried [] = tt
choose-new zero queried (c ∷ cs) = tt
choose-new (suc room) queried (c ∷ cs) = elim (Bool-cases (contains c.id queried)) [
  | inl e ↦ rw e (choose-new (suc room) queried cs)
  | inr e ↦ rw e (e, choose-new room queried cs)
]

choose-none :
    (room : ℕ) (queried : List NodeId) (cs : List NodeContact)
    → (length (choose (suc room) queried cs) == 0) ≡ true
    → All (λ c. contains c.id queried ≡ true) cs
unfolding choose
choose-none room queried [] h = tt
choose-none room queried (c ∷ cs) h = elim (Bool-cases (contains c.id queried)) [
  | inl e ↦ (e, choose-none room queried cs (ground (arith, h, e)))
  | inr e ↦ absurd (ground (arith, h, e))
]

lookup_rounds-Rounds :
    (query : Query) (room rounds : ℕ) (s : Lookup)
    → Rounds query (suc room) rounds s (lookup_rounds query (suc room) rounds s)
unfolding lookup_rounds
lookup_rounds-Rounds query room zero s = used_up
lookup_rounds-Rounds query room (suc rounds) s =
    let close = candidates s in
    let to_query = choose (suc room) s.queried close in
    elim (Bool-cases (length to_query == 0)) [
      | inl e ↦ rw e (exhausted (choose-none room s.queried close e))
      | inr e ↦ rw e (
          round
            (record {
              peers = to_query;
              asked = refl;
              one = ground (arith, e);
              few = length-choose (suc room) s.queried close;
              new = choose-new (suc room) s.queried close;
              close = λ k. times_listed-choose k (suc room) s.queried close;
            })
            (lookup_rounds-Rounds query room rounds (query_peers query s to_query)))
    ]

rounds-lem :
    (query : Query) (alpha rounds : ℕ) (s : Lookup)
    → IsTable s.table
    → ((k : NodeId) → times_asked k s.queried ≤ 1)
    → let r = lookup_rounds query alpha rounds s in
      IsTable r.table
      × ((k : NodeId) → times_asked k r.queried ≤ 1)
      × (length r.queried ≤ length s.queried + rounds * alpha)
unfolding lookup_rounds
rounds-lem query alpha zero s v once = (v, once, omega arith)
rounds-lem query alpha (suc rounds) s v once =
    let close = kademlia_find_closest s.table s.table.local_id kademlia_k in
    let to_query = choose alpha s.queried close in
    let next = query_peers query s to_query in
    let (v', once', few) =
      rounds-lem query alpha rounds next (query_peers-IsTable query s to_query v)
        (λ k. round-once query alpha s k v (once k)) in
    elim (Bool-cases (length to_query == 0)) [
      | inl e ↦ rw e (v, once, omega arith)
      | inr e ↦ rw e (
        v',
        once',
        omega (
          arith,
          few,
          length-query_peers query s to_query,
          length-choose alpha s.queried close,
          suc-mul rounds alpha,
        ),
      )
    ]

-- The lookup of the own id on a well-formed table, whatever the peers answer: the table stays
-- well-formed, no id is asked twice, and at most ten times `alpha` contacts are asked. Without a
-- `query_fn`, or with an `alpha` of 0, nothing happens. Otherwise there are at most ten rounds, and fewer
-- only where each of the 20 contacts that are then closest to the own id, or of all if there are fewer,
-- has been asked. Each round asks one contact at least and `alpha` at most, which have not been asked
-- before, and whose ids are among those of the 20 contacts closest to the own id at its start.
pub self_lookup_lem :
    (t : KademliaTable) (query : Option Query) (alpha : ℕ)
    → IsTable t
    → let start : Lookup = record { table = t; queried = [] } in
      let r = kademlia_self_lookup t query alpha in
      IsTable r.table
      × ((k : NodeId) → times_asked k r.queried ≤ 1)
      × (length r.queried ≤ max_rounds * alpha)
      × ((((query ≡ none) ⊎ (alpha ≡ 0)) × (r ≡ start))
          ⊎ ((q : Query) × (query ≡ some q) × Rounds q alpha max_rounds start r))
unfolding kademlia_self_lookup count_if
self_lookup_lem t none alpha v = (v, λ k. omega arith, omega arith, inl (inl refl, refl))
self_lookup_lem t (some query) zero v = (v, λ k. omega arith, omega arith, inl (inr refl, refl))
self_lookup_lem t (some query) (suc room) v =
    let start : Lookup = record { table = t; queried = [] } in
    let (table, once, few) = rounds-lem query (suc room) max_rounds start v (λ k. omega arith) in
    let some_room : (suc room == 0) ≡ false = ground arith in
    rw some_room (
      table,
      once,
      omega (arith, few),
      inr (query, refl, lookup_rounds-Rounds query room max_rounds start),
    )
