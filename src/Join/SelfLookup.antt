-- ===== src/Join/SelfLookup.antt =====
-- `kademlia_self_lookup` of src/network/join.cpp. `query_fn` is a parameter: `query n peer target` is
-- what the call that has `n` calls before it returns, so that its answers may change with time. A
-- `query_fn` that is null, or an `alpha` of 0, is `none`, or 0.
pub mod Calls
pub mod Rounds
use madoka.Common.{
  ℕ, zero, suc, ◌+◌, Bool, List, [], ◌∷◌, Option, none, some, length, leb, ◌==◌, if◌then◌else◌,
  any_of, not,
}
use madoka.Bytes.{NodeId, bytes_eq}
use madoka.Kademlia.{NodeContact, KademliaTable, kademlia_k}
use madoka.Kademlia.Closest.{kademlia_find_closest}
use madoka.Join.{offer_contacts}

abbrev pub Query : Type 0
Query = ℕ → NodeId → NodeId → List NodeContact

-- `queried.contains(id)`
unfoldable pub contains : NodeId → List NodeId → Bool
unfolding any_of bytes_eq
contains id queried = any_of (λ q. bytes_eq q id) queried

-- The loop that chooses `to_query`, with room for so many contacts.
unfoldable pub choose : ℕ → List NodeId → List NodeContact → List NodeContact
unfolding contains
choose room queried [] = []
choose zero queried (c ∷ cs) = []
choose (suc room) queried (c ∷ cs) =
    if not (contains c.id queried) then c ∷ choose room queried cs else choose (suc room) queried cs

-- What the lookup has done so far: the table, and the ids that it has queried, the last one first. They
-- are the set of the source, and the calls of `query_fn`.
pub record Lookup : Type 0 where
  pub table : KademliaTable
  pub queried : List NodeId

-- One peer is asked, and what it returns is offered to the table.
unfoldable pub ask : Query → Lookup → NodeContact → Lookup
unfolding offer_contacts
ask query s peer = record {
  table = offer_contacts s.table (query (length s.queried) peer.id s.table.local_id);
  queried = peer.id ∷ s.queried;
}

-- The loop over `to_query`.
unfoldable pub query_peers : Query → Lookup → List NodeContact → Lookup
unfolding ask
query_peers query s [] = s
query_peers query s (peer ∷ peers) = query_peers query (ask query s peer) peers

-- The rounds that are left.
unfoldable pub lookup_rounds : Query → ℕ → ℕ → Lookup → Lookup
unfolding choose query_peers kademlia_find_closest
lookup_rounds query alpha zero s = s
lookup_rounds query alpha (suc rounds) s =
    let to_query =
      choose alpha s.queried (kademlia_find_closest s.table s.table.local_id kademlia_k) in
    if length to_query == 0
    then s
    else lookup_rounds query alpha rounds (query_peers query s to_query)

abbrev pub max_rounds : ℕ
max_rounds = 10

unfoldable pub kademlia_self_lookup : KademliaTable → Option Query → ℕ → Lookup
unfolding lookup_rounds
kademlia_self_lookup table none alpha = record { table = table; queried = [] }
kademlia_self_lookup table (some query) alpha =
    if alpha == 0
    then record { table = table; queried = [] }
    else lookup_rounds query alpha max_rounds (record { table = table; queried = [] })
