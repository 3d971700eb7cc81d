-- ===== src/Kademlia/Bucket.antt =====
-- What is found in one bucket after a contact has been offered to it.
use madoka.Common.{
  ℕ, ◌≤◌, ◌<◌, ◌≡◌, refl, Bool, true, false, ◌||◌, [], ◌∷◌, Option, none, some, arith, length, ltb,
  if◌then◌else◌, inl, inr, Bool-cases, Option-cases, erase_first, find_if,
}
use madoka.Bytes.{NodeId, bytes_eq, bytes_eq_iff}
use madoka.Keyed.{Unique, has_key, find_key, find_key-append, find_key-erase_first, find_key-key}
use madoka.Kademlia.{
  NodeContact, KBucket, Ping, contact_id, kademlia_k, refresh, challenge, insert_contact,
}

-- Whether the ping is answered; an empty function pings nobody.
abbrev pub answered : Ping → NodeContact → Bool
answered none c = true
answered (some ping) c = ping c

-- The contact that an offer evicts, if any: the oldest of a full bucket, when it does not answer.
abbrev pub evicted : KBucket → NodeContact → Ping → Option NodeContact
evicted [] contact ping = none
evicted (oldest ∷ rest) contact ping = elim (find_key contact_id contact.id (oldest ∷ rest)) [
  | some _ ↦ none
  | none ↦
      if ltb (length (oldest ∷ rest)) kademlia_k || answered ping oldest then none else some oldest
]

-- What is found under the id of the offered contact.
abbrev pub offered : KBucket → NodeContact → Bool → Option NodeContact
offered bucket contact inserted = elim (find_key contact_id contact.id bucket) [
  | some old ↦ some (refresh contact old)
  | none ↦ if inserted then some contact else none
]

abbrev is_id : Option NodeContact → NodeId → Bool
is_id none k = false
is_id (some c) k = bytes_eq c.id k

-- What is found under `k` after the offer.
abbrev pub found_after : KBucket → NodeContact → Ping → NodeId → Option NodeContact
found_after bucket contact ping k =
    if bytes_eq contact.id k
    then offered bucket contact (insert_contact bucket contact ping).1
    else if is_id (evicted bucket contact ping) k
    then none
    else find_key contact_id k bucket

ltb_of_lt : {a b : ℕ} → a < b → ltb a b ≡ true
ltb_of_lt h = ground arith

pub lt_of_ltb : {a b : ℕ} → ltb a b ≡ true → a < b
lt_of_ltb h = ground arith

le_of_ltb : {a b : ℕ} → ltb a b ≡ false → b ≤ a
le_of_ltb h = ground arith

challenge-find :
    (bucket : KBucket) (contact : NodeContact) (ping : Ping) (k : NodeId)
    → Unique contact_id bucket
    → find_key contact_id contact.id bucket ≡ none
    → kademlia_k ≤ length bucket
    → find_key contact_id k (challenge bucket contact ping).0 ≡ (
        if bytes_eq contact.id k
        then if (challenge bucket contact ping).1 then some contact else none
        else if is_id (evicted bucket contact ping) k
        then none
        else find_key contact_id k bucket)
unfolding challenge find_key find_if
challenge-find [] contact none k u e full = ground arith
challenge-find (oldest ∷ rest) contact none k u e full = ground (arith, bytes_eq_iff contact.id k)
challenge-find [] contact (some ping) k u e full = ground (arith)
challenge-find (oldest ∷ rest) contact (some ping) k u e full = ground (
  arith,
  bytes_eq_iff contact.id k,
  bytes_eq_iff oldest.id k,
  find_key-append contact_id k rest oldest,
  find_key-append contact_id k rest contact,
)

evicted-known :
    (bucket : KBucket) (contact : NodeContact) (ping : Ping) (old : NodeContact)
    → find_key contact_id contact.id bucket ≡ some old
    → evicted bucket contact ping ≡ none
evicted-known [] contact ping old e = refl
evicted-known (o ∷ rest) contact ping old e = ground (arith, e)

evicted-room :
    (bucket : KBucket) (contact : NodeContact) (ping : Ping)
    → length bucket < kademlia_k
    → evicted bucket contact ping ≡ none
evicted-room [] contact ping h = refl
evicted-room (o ∷ rest) contact ping h = ground arith

insert_known :
    (bucket : KBucket) (contact : NodeContact) (ping : Ping) (k : NodeId) (old : NodeContact)
    → Unique contact_id bucket
    → find_key contact_id contact.id bucket ≡ some old
    → find_key contact_id k (insert_contact bucket contact ping).0
      ≡ found_after bucket contact ping k
unfolding insert_contact
insert_known bucket contact ping k old u e = ground (
  arith,
  e,
  evicted-known bucket contact ping old e,
  find_key-key contact_id contact.id bucket old e,
  bytes_eq_iff contact.id k,
  find_key-append contact_id k (erase_first (has_key contact_id contact.id) bucket)
      (refresh contact old),
  find_key-erase_first contact_id k contact.id bucket u,
)

insert_room :
    (bucket : KBucket) (contact : NodeContact) (ping : Ping) (k : NodeId)
    → length bucket < kademlia_k
    → find_key contact_id contact.id bucket ≡ none
    → find_key contact_id k (insert_contact bucket contact ping).0
      ≡ found_after bucket contact ping k
unfolding insert_contact
insert_room bucket contact ping k room e = ground (
  arith,
  e,
  evicted-room bucket contact ping room,
  bytes_eq_iff contact.id k,
  find_key-append contact_id k bucket contact,
)

insert_full :
    (bucket : KBucket) (contact : NodeContact) (ping : Ping) (k : NodeId)
    → Unique contact_id bucket
    → kademlia_k ≤ length bucket
    → find_key contact_id contact.id bucket ≡ none
    → find_key contact_id k (insert_contact bucket contact ping).0
      ≡ found_after bucket contact ping k
unfolding insert_contact
insert_full bucket contact ping k u full e =
    ground (arith, e, challenge-find bucket contact ping k u e full)

-- Offering a contact to a bucket of distinct ids: under its own id the contact is found, refreshed if
-- it was there already, and not found if the bucket is full and the oldest contact answers or is not
-- asked; every other contact is found as before, but for the one that is evicted.
pub insert_contact-find :
    (bucket : KBucket) (contact : NodeContact) (ping : Ping) (k : NodeId)
    → Unique contact_id bucket
    → find_key contact_id k (insert_contact bucket contact ping).0
      ≡ found_after bucket contact ping k
insert_contact-find bucket contact ping k u =
    elim (Option-cases (find_key contact_id contact.id bucket)) [
      | inr (old, e) ↦ insert_known bucket contact ping k old u e
      | inl e ↦ elim (Bool-cases (ltb (length bucket) kademlia_k)) [
        | inl room ↦ insert_room bucket contact ping k (lt_of_ltb room) e
        | inr full ↦ insert_full bucket contact ping k u (le_of_ltb full) e
      ]
    ]
